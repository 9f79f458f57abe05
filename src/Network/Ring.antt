-- ===== src/Network/Ring.antt =====
-- The transmit ring of drivers/e1000.c: which descriptors the card still has to send.
use Prim.Native.Nat.{bit_and}
use oslab_riscv.Prelude.{
  ℕ, ◌+◌, ◌%◌, ◌≤◌, ◌<◌, ◌≡◌, ◌≢◌, refl, sym, ap, ◌∙◌, ◌⊎◌, inl, inr, Bool-cases, true, false,
  Option, none, some, ◌==◌, ltb, arith,
}
use oslab_riscv.Strings.{copy_bytes}
use oslab_riscv.Strings.Blocks.{copy_bytes-in}
use oslab_riscv.Memory.{kva2pa}
use oslab_riscv.Network.{TxDesc, E1000, txdescs, tdh, tdt, e1000_write_reg, fill_tx, e1000_transmit}

-- `n` packets wait for the card, in the descriptors from `h` on: their status is not done, that of the
-- others is.
pub record IsRing (tx_at : ℕ → ℕ) (h n : ℕ) (s : E1000) : Type 0 where
  pub range : h < 64
  pub count : n ≤ 64
  pub head : s.regs tdh ≡ h
  pub tail : s.regs tdt ≡ (h + n) % 64
  pub waits : (k : ℕ) → k < n → (s.tx_desc_array ((h + k) % 64)).status ≡ 0
  pub done : (k : ℕ) → n ≤ k → k < 64 → (s.tx_desc_array ((h + k) % 64)).status ≡ 1
  pub addr : (i : ℕ) → i < 64 → (s.tx_desc_array i).addr ≡ kva2pa (tx_at i)

-- The state after a packet was taken.
abbrev pub sent : (txpacket length : ℕ) → E1000 → E1000
sent txpacket length s =
    let tail = s.regs tdt in
    e1000_write_reg tdt ((tail + 1) % txdescs) (fill_tx tail txpacket length s)

-- The descriptor that is filled, and the others.
fill_tx-status :
    (tail txpacket length : ℕ) (s : E1000)
    → (s.tx_desc_array tail).status ≡ 1
    → ((fill_tx tail txpacket length s).tx_desc_array tail).status ≡ 0
unfolding fill_tx
fill_tx-status tail txpacket length s e = ground (arith, ap (λ (x : ℕ). bit_and x 254) e)

fill_tx-length :
    (tail txpacket length : ℕ) (s : E1000)
    → ((fill_tx tail txpacket length s).tx_desc_array tail).length ≡ length
unfolding fill_tx
fill_tx-length tail txpacket length s = ground arith

fill_tx-addr :
    (tail txpacket length i : ℕ) (s : E1000)
    → ((fill_tx tail txpacket length s).tx_desc_array i).addr ≡ (s.tx_desc_array i).addr
unfolding fill_tx
fill_tx-addr tail txpacket length i s = elim (Bool-cases (tail == i)) [
  | inl e ↦
      let same : tail ≡ i = ground (arith, e) in
      rw (e, fill_tx) (ap (λ (k : ℕ). (s.tx_desc_array k).addr) same)
  | inr e ↦ rw (e, fill_tx) refl
]

fill_tx-other :
    (tail txpacket length i : ℕ) (s : E1000)
    → tail ≢ i
    → ((fill_tx tail txpacket length s).tx_desc_array i ≡ s.tx_desc_array i)
      × ((fill_tx tail txpacket length s).tx_pkt_buffer i ≡ s.tx_pkt_buffer i)
unfolding fill_tx
fill_tx-other tail txpacket length i s ne =
    let e : (tail == i) ≡ false = ground (arith, ne) in (rw (e, fill_tx) refl, rw (e, fill_tx) refl)

fill_tx-bytes :
    (tail txpacket length j : ℕ) (s : E1000)
    → j < length
    → (fill_tx tail txpacket length s).tx_pkt_buffer tail j ≡ s.mem (txpacket + j)
unfolding fill_tx
fill_tx-bytes tail txpacket length j s l =
    let e : (tail == tail) ≡ true = ground arith in
    let here : 0 + j ≡ j = omega arith in
    let copied = copy_bytes 0 txpacket length s.mem (s.tx_pkt_buffer tail) in
    rw (e, fill_tx)
      (sym (ap copied here) ∙ copy_bytes-in 0 txpacket length s.mem (s.tx_pkt_buffer tail) j l)

transmit-room :
    (tx_at : ℕ → ℕ) (h n txpacket length : ℕ) (s : E1000)
    → IsRing tx_at h n s
    → n < 64
    → length < 2048
    → e1000_transmit tx_at txpacket length s ≡ some (length, sent txpacket length s)
unfolding e1000_transmit
transmit-room tx_at h n txpacket length s r l k =
    let small : ltb length 2048 ≡ true = ground arith in
    let free : (s.tx_desc_array (s.regs tdt)).status ≡ 1 =
      ap (λ (i : ℕ). (s.tx_desc_array i).status) r.tail ∙ r.done n (omega arith) l in
    let right : (s.tx_desc_array (s.regs tdt)).addr == kva2pa (tx_at (s.regs tdt)) ≡ true =
      let low : s.regs tdt < 64 = omega (arith, r.tail) in
      let same = r.addr (s.regs tdt) low in ground (arith, same) in
    rw (small, e1000_transmit) (rw (free, e1000_transmit) (rw (right, e1000_transmit) refl))

to_eq : (a b : ℕ) → (a == b) ≡ true → a ≡ b
to_eq a b e = ground (arith, e)

sent-IsRing :
    (tx_at : ℕ → ℕ) (h n txpacket length : ℕ) (s : E1000)
    → IsRing tx_at h n s
    → n < 64
    → IsRing tx_at h (n + 1) (sent txpacket length s)
unfolding fill_tx
sent-IsRing tx_at h n txpacket length s r l =
    let tail = s.regs tdt in
    let free = ap (λ (i : ℕ). (s.tx_desc_array i).status) r.tail ∙ r.done n (omega arith) l in
    let other = λ (k : ℕ) (a : k ≢ n) (b : k < 64).
      let apart : tail ≢ (h + k) % 64 = λ e. a (omega (arith, r.tail, r.range, e)) in
      ap (λ (d : TxDesc). d.status)
        ((fill_tx-other tail txpacket length ((h + k) % 64) s apart).0) in
    record {
      range = r.range;
      count = omega arith;
      head = r.head;
      tail = omega (arith, r.tail);
      waits = λ k a. elim (Bool-cases (k == n)) [
        | inr e ↦ other k (ground (arith, e)) (omega arith) ∙ r.waits k (ground (arith, e))
        | inl e ↦
            let same : (h + k) % 64 ≡ tail = omega (arith, r.tail, to_eq k n e) in
            ap (λ (i : ℕ). ((fill_tx tail txpacket length s).tx_desc_array i).status) same
            ∙ fill_tx-status tail txpacket length s free
      ];
      done = λ k a b. other k (λ e. absurd (omega (arith, e))) b ∙ r.done k (omega arith) b;
      addr = λ i a. fill_tx-addr tail txpacket length i s ∙ r.addr i a;
    }

transmit_full :
    (tx_at : ℕ → ℕ) (h txpacket length : ℕ) (s : E1000)
    → IsRing tx_at h 64 s
    → length < 2048
    → e1000_transmit tx_at txpacket length s ≡ some (0, s)
unfolding e1000_transmit
transmit_full tx_at h txpacket length s r l =
    let small : ltb length 2048 ≡ true = ground arith in
    let same : s.regs tdt ≡ (h + 0) % 64 = omega (arith, r.tail, r.range) in
    let busy : (s.tx_desc_array (s.regs tdt)).status ≡ 0 =
      ap (λ (i : ℕ). (s.tx_desc_array i).status) same ∙ r.waits 0 (omega arith) in
    rw (small, e1000_transmit) (rw (busy, e1000_transmit) refl)

-- The packet stands in descriptor `i` and its buffer; the other buffers and the lengths of their
-- packets are as they were.
pub record Holds (i txpacket length : ℕ) (s s' : E1000) : Type 0 where
  pub size : (s'.tx_desc_array i).length ≡ length
  pub bytes : (j : ℕ) → j < length → s'.tx_pkt_buffer i j ≡ s.mem (txpacket + j)
  pub others :
      (k : ℕ)
      → i ≢ k
      → (s'.tx_desc_array k ≡ s.tx_desc_array k) × (s'.tx_pkt_buffer k ≡ s.tx_pkt_buffer k)

sent-Holds :
    (txpacket length : ℕ) (s : E1000)
    → Holds (s.regs tdt) txpacket length s (sent txpacket length s)
sent-Holds txpacket length s = record {
  size = fill_tx-length (s.regs tdt) txpacket length s;
  bytes = λ j l. fill_tx-bytes (s.regs tdt) txpacket length j s l;
  others = λ k ne. fill_tx-other (s.regs tdt) txpacket length k s ne;
}

-- With n packets waiting in the ring, `e1000_transmit` of fewer than 2048 bytes returns 0 and changes
-- nothing if n is 64, the number of descriptors; else it returns the length, the packet is the last of
-- n + 1 that wait, with its bytes and its length in the descriptor that was free, and the packets that
-- waited are as they were.
pub e1000_transmit-IsRing :
    (tx_at : ℕ → ℕ) (h n txpacket length : ℕ) (s : E1000)
    → IsRing tx_at h n s
    → length < 2048
    → ((n ≡ 64) × (e1000_transmit tx_at txpacket length s ≡ some (0, s)))
      ⊎ ((n < 64)
          × ((s' : E1000) × (e1000_transmit tx_at txpacket length s ≡ some (length, s'))
              × IsRing tx_at h (n + 1) s'
              × Holds ((h + n) % 64) txpacket length s s'))
e1000_transmit-IsRing tx_at h n txpacket length s r l = elim (Bool-cases (n == 64)) [
  | inl e ↦
      let full = to_eq n 64 e in
      inl (full, transmit_full tx_at h txpacket length s (rw full at r) l)
  | inr e ↦
      let room : n < 64 = ground (arith, e, r.count) in
      inr (
        room,
        (
          sent txpacket length s,
          transmit-room tx_at h n txpacket length s r room l,
          sent-IsRing tx_at h n txpacket length s r room,
          rw (sym r.tail) (sent-Holds txpacket length s),
        ),
      )
]

-- Whatever the card is, as long as it sends nothing where its head is at the tail: once 63 packets wait
-- and one more is taken, the tail is at the head, so the card sends nothing any more, and every later
-- call of `e1000_transmit` returns 0 and changes nothing.
pub e1000_transmit-stuck :
    (send : E1000 → Option E1000)
    → ((t : E1000) → t.regs tdh ≡ t.regs tdt → send t ≡ none)
    → (tx_at : ℕ → ℕ) (h txpacket length : ℕ) (s : E1000) → IsRing tx_at h 63 s
    → length < 2048
    → (s' : E1000) × (e1000_transmit tx_at txpacket length s ≡ some (length, s'))
      × (send s' ≡ none)
      × ((p l : ℕ) → l < 2048 → e1000_transmit tx_at p l s' ≡ some (0, s'))
e1000_transmit-stuck send idle tx_at h txpacket length s r l =
    let s' = sent txpacket length s in
    let r' = sent-IsRing tx_at h 63 txpacket length s r (omega arith) in
    let met : s'.regs tdh ≡ s'.regs tdt = r'.head ∙ omega (arith, r.range) ∙ sym r'.tail in
    (
      s',
      transmit-room tx_at h 63 txpacket length s r (omega arith) l,
      idle s' met,
      λ p k small. transmit_full tx_at h p k s' r' small,
    )
