-- ===== src/Serial/Fifo.antt =====
-- The receive buffer of kernel/src/drivers/drv_serial.c as a queue of bytes.
use dz_os.Prelude.{
  ℕ, zero, suc, ◌+◌, ◌%◌, ◌≤◌, ◌<◌, ◌≡◌, refl, sym, ap, ◌∙◌, inl, inr, true, false, not, Option,
  none, some, List, [], ◌∷◌, ◌++◌, arith, ltb, ◌==◌, if◌then◌else◌, Bool-cases, ==-refl, update,
  length,
}
use dz_os.Prelude.{==-eq}
use dz_os.Serial.Buffer.{
  Serial, newline, receive, serial_irq_handler, available, copy_out, serial_read_op,
}

-- both indices stand inside the buffer
pub record IsSerial (s : Serial) : Type 0 where
  pub read : s.read_index < 128
  pub write : s.write_index < 128

-- `n` bytes of the ring from `r`
abbrev pub bytes : (ℕ → ℕ) → ℕ → ℕ → List ℕ
bytes buf r zero = []
bytes buf r (suc n) = buf r ∷ bytes buf ((r + 1) % 128) n

-- the bytes received and not yet read, oldest first
abbrev pub contents : Serial → List ℕ
contents s = bytes s.input_buffer s.read_index (available s)

bytes_append :
    (buf : ℕ → ℕ) (r n : ℕ)
    → r < 128
    → bytes buf r (n + 1) ≡ bytes buf r n ++ (buf ((r + n) % 128) ∷ [])
bytes_append buf r zero h = let base : (r + 0) % 128 ≡ r = omega arith in rw base refl
bytes_append buf r (suc n) h =
    let more : suc n + 1 ≡ suc (n + 1) = omega arith in
    let next : (r + suc n) % 128 ≡ ((r + 1) % 128 + n) % 128 = omega arith in
    rw (more, next, bytes_append buf ((r + 1) % 128) n (omega arith)) refl

-- a write just behind the bytes leaves them alone
bytes-update :
    (buf : ℕ → ℕ) (r n w c : ℕ)
    → r < 128
    → n < 128
    → (r + n) % 128 ≡ w
    → bytes (update buf w c) r n ≡ bytes buf r n
bytes-update buf r zero w c h small e = refl
bytes-update buf r (suc n) w c h small e =
    let other : (r == w) ≡ false = ground arith in
    rw (other, bytes-update buf ((r + 1) % 128) n w c (omega arith) (omega arith) (omega arith))
      refl

available_lt : (s : Serial) → IsSerial s → available s < 128
unfolding available
available_lt s v = ground (arith, v.read, v.write)

available_end : (s : Serial) → IsSerial s → (s.read_index + available s) % 128 ≡ s.write_index
unfolding available
available_end s v = ground (arith, v.read, v.write)

available_write :
    (s : Serial) (buf : ℕ → ℕ)
    → IsSerial s
    → ((s.write_index + 1) % 128 == s.read_index) ≡ false
    → available (record s { input_buffer = buf; write_index = (s.write_index + 1) % 128 })
      ≡ available s + 1
unfolding available
available_write s buf v h = ground (arith, v.read, v.write)

available_read :
    (s : Serial)
    → IsSerial s
    → 0 < available s
    → available s ≡ suc (available (record s { read_index = (s.read_index + 1) % 128 }))
unfolding available
available_read s v h = ground (arith, v.read, v.write)

full_lem :
    (s : Serial) → IsSerial s → ((s.write_index + 1) % 128 == s.read_index) ≡ (available s == 127)
unfolding available
full_lem s v = ground (arith, v.read, v.write)

receive-contents :
    (c : ℕ) (s : Serial)
    → IsSerial s
    → contents (receive c s).0 ≡ (if available s == 127 then contents s else contents s ++ (c ∷ []))
unfolding receive
receive-contents c s v = elim (Bool-cases ((s.write_index + 1) % 128 == s.read_index)) [
  | inl full ↦ rw (sym (full_lem s v)) (simp full refl)
  | inr room ↦
      let buf = update s.input_buffer s.write_index c in
      let here : (s.read_index + available s) % 128 ≡ s.write_index = available_end s v in
      rw (sym (full_lem s v)) (
        simp room (
          rw (available_write s buf v room) (
            bytes_append buf s.read_index (available s) v.read
            ∙ rw
                (
                  here,
                  ==-refl s.write_index,
                  bytes-update s.input_buffer s.read_index (available s) s.write_index c v.read
                      (available_lt s v) here,
                )
                refl)))
]

receive-IsSerial : (c : ℕ) (s : Serial) → IsSerial s → IsSerial (receive c s).0
unfolding receive
receive-IsSerial c s v = elim (Bool-cases ((s.write_index + 1) % 128 == s.read_index)) [
  | inl full ↦ simp full v
  | inr room ↦ simp room record { read = v.read; write = omega arith }
]

-- The interrupt handler of an initialised port appends the character, with '\n' for '\r', to the bytes
-- not yet read, and drops it when 127 are waiting; the indices stay inside the buffer.
pub serial_irq_handler-contents :
    (c : ℕ) (s : Serial)
    → IsSerial s
    → s.initialized ≡ true
    → let s' = (serial_irq_handler c s).0 in
      (contents s' ≡ (if available s == 127 then contents s else contents s ++ (newline c ∷ [])))
      × IsSerial s'
unfolding serial_irq_handler
serial_irq_handler-contents c s v on =
    let started : not s.initialized ≡ false = rw on refl in
    simp started (receive-contents (newline c) s v, receive-IsSerial (newline c) s v)

-- What a read has to give: it sleeps only on an empty buffer, and otherwise takes the oldest bytes.
abbrev pub Reads : ℕ → Serial → Option (List ℕ × Serial) → Type 0
Reads len s none = (0 < len) × (contents s ≡ [])
Reads len s (some (out, s')) =
    (contents s ≡ out ++ contents s')
    × (length out ≡ (if ltb (available s) len then available s else len))
    × IsSerial s'

copy_out-Reads :
    (n : ℕ) (s : Serial)
    → IsSerial s
    → n ≤ available s
    → (contents s ≡ (copy_out n s).0 ++ contents (copy_out n s).1)
      × (length (copy_out n s).0 ≡ n)
      × IsSerial (copy_out n s).1
unfolding copy_out
copy_out-Reads zero s v h = (refl, refl, v)
copy_out-Reads (suc n) s v h =
    let s' : Serial = record s { read_index = (s.read_index + 1) % 128 } in
    let v' : IsSerial s' = record { read = omega arith; write = v.write } in
    let less : available s ≡ suc (available s') = available_read s v (omega arith) in
    let rest = copy_out-Reads n s' v' (omega (arith, less)) in
    (rw (less, rest.0) refl, ap suc rest.1, rest.2)

available_empty : (s : Serial) → s.read_index ≡ s.write_index → available s ≡ 0
unfolding available
available_empty s e = ground arith

-- A read sleeps only when a byte is asked for and none waits. Otherwise it takes bytes from the front, as
-- many as were asked for or as there are, and the others stay in their order.
pub serial_read_op-Reads : (len : ℕ) (s : Serial) → IsSerial s → Reads len s (serial_read_op len s)
unfolding serial_read_op
serial_read_op-Reads len s v = elim (Bool-cases (len == 0)) [
  | inl nothing ↦
      let few : ltb (available s) len ≡ false = ground arith in
      simp nothing (refl, rw few (sym (==-eq len 0 nothing)), v)
  | inr some_asked ↦ elim (Bool-cases (s.read_index == s.write_index)) [
    | inl empty ↦
        simp (some_asked, empty)
          (
            ground arith,
            ap (bytes s.input_buffer s.read_index)
                (available_empty s (==-eq s.read_index s.write_index empty)),
          )
    | inr waiting ↦
        simp (some_asked, waiting)
          (copy_out-Reads (if ltb (available s) len then available s else len) s v (ground arith))
  ]
]
