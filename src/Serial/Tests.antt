-- ===== src/Serial/Tests.antt =====
-- Runs of the receive buffer of kernel/src/drivers/drv_serial.c.
use dz_os.Prelude.{◌≡◌, refl, true, [], ◌∷◌, ◌++◌, arith, ◌==◌, if◌then◌else◌}
use dz_os.Serial.Buffer.{Serial, newline, available, serial_irq_handler}
use dz_os.Serial.Fifo.{IsSerial, contents, serial_irq_handler-contents}

-- two bytes that wrap around the end of the buffer
abbrev wrapped : Serial
wrapped = record { input_buffer = λ i. 65; read_index = 127; write_index = 1; initialized = true }

wrapped-IsSerial : IsSerial wrapped
wrapped-IsSerial = record { read = omega arith; write = omega arith }

receive_example :
    let s = (serial_irq_handler 13 wrapped).0 in
    (contents s ≡ (
      if available wrapped == 127 then contents wrapped else contents wrapped ++ (newline 13 ∷ [])))
    × IsSerial s
receive_example = serial_irq_handler-contents 13 wrapped wrapped-IsSerial refl
