-- ===== src/Serial/Buffer.antt =====
-- The receive buffer of kernel/src/drivers/drv_serial.c: `serial_irq_handler` and `serial_read_op`.
use dz_os.Prelude.{
  ℕ, zero, suc, ◌+◌, ◌-◌, ◌%◌, Bool, not, Option, none, some, List, [], ◌∷◌, ltb, ◌==◌,
  if◌then◌else◌, update,
}

abbrev pub serial_buffer_length : ℕ
serial_buffer_length = 128

-- `serial_device_data_t`, less its condition variable
pub record Serial : Type 0 where
  pub input_buffer : ℕ → ℕ
  pub read_index : ℕ
  pub write_index : ℕ
  pub initialized : Bool

-- `if (c == '\r') c = '\n'`
unfoldable pub newline : ℕ → ℕ
newline c = if c == 13 then 10 else c

-- the character added, if there is room
unfoldable pub receive : ℕ → Serial → Serial × List ℕ
receive c s =
    let next = (s.write_index + 1) % serial_buffer_length in
    if next == s.read_index then (s, []) else (
      record s { input_buffer = update s.input_buffer s.write_index c; write_index = next },
      c ∷ [],
    )

-- `c` is the byte that the port holds; the list is what is echoed. Uninitialised data is left alone;
-- `driver_data` is not NULL here and in the read.
unfoldable pub serial_irq_handler : ℕ → Serial → Serial × List ℕ
serial_irq_handler c s = if not s.initialized then (s, []) else receive (newline c) s

unfoldable pub available : Serial → ℕ
available s =
    if ltb s.write_index s.read_index
    then s.write_index + (serial_buffer_length - s.read_index)
    else s.write_index - s.read_index

-- the copy loop
unfoldable pub copy_out : ℕ → Serial → List ℕ × Serial
copy_out zero s = ([], s)
copy_out (suc n) s =
    let rest = copy_out n (record s { read_index = (s.read_index + 1) % serial_buffer_length }) in
    (s.input_buffer s.read_index ∷ rest.0, rest.1)

-- `none` is a caller that sleeps on the condition variable, the buffer being empty.
unfoldable pub serial_read_op : ℕ → Serial → Option (List ℕ × Serial)
serial_read_op len s =
    if len == 0
    then some ([], s)
    else if s.read_index == s.write_index
    then none
    else some (copy_out (if ltb (available s) len then available s else len) s)
