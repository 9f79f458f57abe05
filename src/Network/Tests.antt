-- ===== src/Network/Tests.antt =====
-- The theorems about the transmit ring at a state in which 63 packets wait for the card.
use oslab_riscv.Prelude.{
  ℕ, ◌+◌, ◌*◌, ◌%◌, ◌<◌, ◌≡◌, refl, ◌⊎◌, Option, none, some, update, ◌==◌, ltb, if◌then◌else◌,
  arith,
}
use oslab_riscv.Memory.{kva_offset, kva2pa}
use oslab_riscv.Network.{TxDesc, E1000, tdh, tdt, e1000_transmit}
use oslab_riscv.Network.Ring.{IsRing, Holds, e1000_transmit-IsRing, e1000_transmit-stuck}

abbrev tx_at : ℕ → ℕ
tx_at i = kva_offset + 0x50400000 + 2048 * i

abbrev tx_desc : ℕ → TxDesc
tx_desc i = record {
  addr = kva2pa (tx_at i);
  length = 0;
  cso = 0;
  cmd = 9;
  status = if ltb i 63 then 0 else 1;
  css = 0;
  special = 0;
}

abbrev nearly_full : E1000
nearly_full = record {
  regs = λ r. if r == tdt then 63 else 0;
  tx_desc_array = tx_desc;
  rx_desc_array =
      λ i. record { addr = 0; length = 0; csum = 0; status = 0; errors = 0; special = 0 };
  tx_pkt_buffer = λ i j. 0;
  rx_pkt_buffer = λ i j. 0;
  mem = λ p. p % 256;
}

nearly_full-IsRing : IsRing tx_at 0 63 nearly_full
nearly_full-IsRing = record {
  range = omega arith;
  count = omega arith;
  head = refl;
  tail = refl;
  waits = λ k l. ground arith;
  done = λ k a b. ground arith;
  addr = λ i l. refl;
}

-- A card that sends the packet at its head, and marks it as done, unless the head is at the tail.
abbrev send : E1000 → Option E1000
send t =
    let h = t.regs tdh in
    if h == t.regs tdt
    then none
    else some (record t {
      regs = update t.regs tdh ((h + 1) % 64);
      tx_desc_array = update t.tx_desc_array h (record (t.tx_desc_array h) { status = 1 });
    })

send_idle : (t : E1000) → t.regs tdh ≡ t.regs tdt → send t ≡ none
send_idle t e = rw e (ground arith)

-- How many packets wait.
abbrev waiting : ℕ
waiting = 63

e1000_transmit-IsRing_example :
    ((waiting ≡ 64) × (e1000_transmit tx_at 100 60 nearly_full ≡ some (0, nearly_full)))
    ⊎ ((waiting < 64)
        × ((s' : E1000) × (e1000_transmit tx_at 100 60 nearly_full ≡ some (60, s'))
            × IsRing tx_at 0 64 s'
            × Holds 63 100 60 nearly_full s'))
e1000_transmit-IsRing_example =
    e1000_transmit-IsRing tx_at 0 63 100 60 nearly_full nearly_full-IsRing (omega arith)

e1000_transmit-stuck_example :
    (s' : E1000) × (e1000_transmit tx_at 100 60 nearly_full ≡ some (60, s'))
    × (send s' ≡ none)
    × ((p l : ℕ) → l < 2048 → e1000_transmit tx_at p l s' ≡ some (0, s'))
e1000_transmit-stuck_example =
    e1000_transmit-stuck send send_idle tx_at 0 100 60 nearly_full nearly_full-IsRing (omega arith)
