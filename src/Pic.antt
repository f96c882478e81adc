-- ===== src/Pic.antt =====
-- student-distrib/i8259.c: the interrupt controller's masks and commands.
pub mod Masks
pub mod Lines
mod Tests
use cheet_os.Base.{
  ℕ, zero, suc, ◌+◌, ◌-◌, ◌*◌, ◌/◌, ◌%◌, ◌^◌, Bool, ltb, if◌then◌else◌, bit_and, bit_or,
}
use cheet_os.Io.{Log, outb}

-- `master_mask` and `slave_mask`, beside the port accesses made.
pub record Pic : Type 0 where
  pub master_mask : ℕ
  pub slave_mask : ℕ
  pub log : Log

abbrev pub master_port : ℕ
master_port = 0x20

abbrev pub slave_port : ℕ
slave_port = 0xA0

abbrev pub master_data_port : ℕ
master_data_port = 0x21

abbrev pub slave_data_port : ℕ
slave_data_port = 0xA1

abbrev pub num_irq : ℕ
num_irq = 0x0F

abbrev pub pic_irq_mask : ℕ
pic_irq_mask = 0xFF

abbrev pub icw3_slave : ℕ
icw3_slave = 0x02

abbrev pub eoi : ℕ
eoi = 0x60

-- `mask &= ~(1 << k)` on a byte
unfoldable pub clear_bit : ℕ → ℕ → ℕ
clear_bit mask k = bit_and mask (255 - 2 ^ k)

-- `mask |= (1 << k)` on a byte
unfoldable pub set_bit : ℕ → ℕ → ℕ
set_bit mask k = bit_or mask (2 ^ k) % 256

unfoldable pub i8259_init : Pic → Pic
i8259_init p =
    let masked = outb pic_irq_mask slave_data_port (outb pic_irq_mask master_data_port p.log) in
    let master =
      outb 0x01 master_data_port
        (outb 0x04 master_data_port (outb 0x20 master_data_port (outb 0x11 master_port masked))) in
    let slave =
      outb 0x01 slave_data_port (
        outb icw3_slave slave_data_port
          (outb 0x28 slave_data_port (outb 0x11 slave_port master))) in
    record p { log = slave }

enable_slave : ℕ → Pic → Pic
enable_slave irq_num p =
    let slave = clear_bit p.slave_mask irq_num in
    let master = clear_bit p.master_mask icw3_slave in
    record {
      master_mask = master;
      slave_mask = slave;
      log = outb master master_data_port (outb slave slave_data_port p.log);
    }

enable_master : ℕ → Pic → Pic
enable_master irq_num p =
    let master = clear_bit p.master_mask irq_num in
    record p { master_mask = master; log = outb master master_data_port p.log }

unfoldable pub enable_irq : ℕ → Pic → Pic
unfolding enable_slave enable_master
enable_irq irq_num p =
    if ltb num_irq irq_num
    then p
    else if ltb 7 irq_num
    then enable_slave (irq_num - 8) p
    else enable_master irq_num p

disable_slave : ℕ → Pic → Pic
disable_slave irq_num p =
    let slave = set_bit p.slave_mask irq_num in
    let master = set_bit p.master_mask icw3_slave in
    record {
      master_mask = master;
      slave_mask = slave;
      log = outb master master_data_port (outb slave slave_data_port p.log);
    }

disable_master : ℕ → Pic → Pic
disable_master irq_num p =
    let master = set_bit p.master_mask irq_num in
    record p { master_mask = master; log = outb master master_data_port p.log }

unfoldable pub disable_irq : ℕ → Pic → Pic
unfolding disable_slave disable_master
disable_irq irq_num p =
    if ltb num_irq irq_num
    then p
    else if ltb 7 irq_num
    then disable_slave (irq_num - 8) p
    else disable_master irq_num p

unfoldable pub send_eoi : ℕ → Pic → Pic
send_eoi irq_num p =
    if ltb num_irq irq_num
    then p
    else if ltb 7 irq_num
    then record p {
      log = outb (bit_or eoi 2) master_port (outb (bit_or eoi (irq_num - 8)) slave_port p.log);
    }
    else record p { log = outb (bit_or eoi irq_num) master_port p.log }
