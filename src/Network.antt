-- ===== src/Network.antt =====
-- drivers/e1000.c: the rings of descriptors that the kernel shares with the network card. A register
-- that the kernel reads holds what was last written to it. `tx_at` and `rx_at` give the kernel address
-- of each packet buffer, which the linker chooses.
pub mod Ring
pub mod Tests
use Prim.Native.Nat.{bit_and, bit_or}
use oslab_riscv.Prelude.{
  ℕ, ◌+◌, ◌%◌, Bool, true, false, not, Option, none, some, update, ◌==◌, ltb, if◌then◌else◌,
}
use oslab_riscv.Strings.{copy_bytes}
use oslab_riscv.Memory.{kva2pa}

-- `struct e1000_tx_desc` and `struct e1000_rx_desc`
pub record TxDesc : Type 0 where
  pub addr : ℕ
  pub length : ℕ
  pub cso : ℕ
  pub cmd : ℕ
  pub status : ℕ
  pub css : ℕ
  pub special : ℕ

pub record RxDesc : Type 0 where
  pub addr : ℕ
  pub length : ℕ
  pub csum : ℕ
  pub status : ℕ
  pub errors : ℕ
  pub special : ℕ

-- The globals of e1000.c, the card's registers, and the memory of the callers.
pub record E1000 : Type 0 where
  pub regs : ℕ → ℕ
  pub tx_desc_array : ℕ → TxDesc
  pub rx_desc_array : ℕ → RxDesc
  pub tx_pkt_buffer : ℕ → ℕ → ℕ
  pub rx_pkt_buffer : ℕ → ℕ → ℕ
  pub mem : ℕ → ℕ

abbrev pub txdescs : ℕ
txdescs = 64

abbrev pub rxdescs : ℕ
rxdescs = 64

abbrev pub tx_pkt_size : ℕ
tx_pkt_size = 2048

-- The registers' offsets: `E1000_TDH`, `E1000_TDT`, `E1000_RDT`, `E1000_IMS`, `E1000_IMC`
abbrev pub tdh : ℕ
tdh = 0x3810

abbrev pub tdt : ℕ
tdt = 0x3818

abbrev pub rdt : ℕ
rdt = 0x2818

abbrev pub e1000_write_reg : (reg v : ℕ) → E1000 → E1000
e1000_write_reg reg v s = record s { regs = update s.regs reg v }

-- `tx_desc_array[tail].status & E1000_TXD_STAT_DD`, and the same of a receive descriptor.
abbrev pub tx_done : ℕ → E1000 → Bool
tx_done tail s = not (bit_and (s.tx_desc_array tail).status 1 == 0)

abbrev pub rx_done : ℕ → E1000 → Bool
rx_done tail s = not (bit_and (s.rx_desc_array tail).status 1 == 0)

-- The descriptor and the buffer that `e1000_transmit` hands to the card.
unfoldable pub fill_tx : (tail txpacket length : ℕ) → E1000 → E1000
fill_tx tail txpacket length s =
    let d = s.tx_desc_array tail in
    let d' : TxDesc = record d {
      length = length;
      status = bit_and d.status 254;
      cmd = bit_or d.cmd 9;
    } in
    record s {
      tx_desc_array = update s.tx_desc_array tail d';
      tx_pkt_buffer =
          update s.tx_pkt_buffer tail (copy_bytes 0 txpacket length s.mem (s.tx_pkt_buffer tail));
    }

-- A failed assertion is `none`; lengths are not negative.
unfoldable pub e1000_transmit : (tx_at : ℕ → ℕ) (txpacket length : ℕ) → E1000 → Option (ℕ × E1000)
unfolding fill_tx
e1000_transmit tx_at txpacket length s =
    let tail = s.regs tdt in
    if not (ltb length tx_pkt_size)
    then none
    else if not (tx_done tail s)
    then some (0, s)
    else if (s.tx_desc_array tail).addr == kva2pa (tx_at tail)
    then some (length, e1000_write_reg tdt ((tail + 1) % txdescs) (fill_tx tail txpacket length s))
    else none

-- What `e1000_poll` takes from the card.
unfoldable pub take_rx : (tail rxbuffer : ℕ) → E1000 → E1000
take_rx tail rxbuffer s =
    let d = s.rx_desc_array tail in
    let d' : RxDesc = record d { status = bit_and d.status 254 } in
    record s {
      mem = copy_bytes rxbuffer 0 d.length (s.rx_pkt_buffer tail) s.mem;
      rx_desc_array = update s.rx_desc_array tail d';
    }

unfoldable pub e1000_poll : (rx_at : ℕ → ℕ) (rxbuffer : ℕ) → E1000 → Option (ℕ × E1000)
unfolding take_rx
e1000_poll rx_at rxbuffer s =
    let tail = (s.regs rdt + 1) % rxdescs in
    let d = s.rx_desc_array tail in
    if not (rx_done tail s)
    then some (0, s)
    else if d.addr == kva2pa (rx_at tail)
    then some (d.length, e1000_write_reg rdt (tail % rxdescs) (take_rx tail rxbuffer s))
    else none

pub is_tx_ready : E1000 → Bool
is_tx_ready s = tx_done (s.regs tdt) s

pub is_rx_ready : E1000 → Bool
is_rx_ready s = rx_done ((s.regs rdt + 1) % rxdescs) s
