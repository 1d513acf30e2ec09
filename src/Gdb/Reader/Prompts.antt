-- ===== src/Gdb/Reader/Prompts.antt =====
-- The texts of the reader against the bytes of gdb, and the bounds of its buffer.
use vimgdb.Base.{
  ℕ, ◌+◌, ◌^◌, ◌<◌, ◌≤◌, ◌≡◌, refl, ◌∙◌, ap, sym, true, false, Bool-cases, inl, inr, arith, List,
  [], ◌∷◌, ◌++◌, append-nil, append_assoc, length, length-append, All, All-append, ◌==◌,
  if◌then◌else◌,
}
use vimgdb.Common.Text.{Bytes}
use vimgdb.Gdb.Reader.{Reader, begin, is_complete, enlarge, append, flush, read_byte, read_all}

-- What gdb wrote, without carriage returns.
unfoldable pub without_cr : Bytes → Bytes
without_cr [] = []
without_cr (c ∷ s) = if c == 13 then without_cr s else c ∷ without_cr s

unfoldable pub concat : List Bytes → Bytes
concat [] = []
concat (t ∷ ts) = t ++ concat ts

concat-append : (ts us : List Bytes) → concat (ts ++ us) ≡ concat ts ++ concat us
unfolding concat
concat-append [] us = refl
concat-append (t ∷ ts) us = ap (λ x. t ++ x) (concat-append ts us) ∙ sym (append_assoc t _ _)

-- All that was read so far.
unfoldable pub seen : Reader → Bytes
seen r = concat r.parsed ++ r.line

flush-seen : (r : Reader) → seen (flush r) ≡ seen r
unfolding flush seen concat
flush-seen r = elim (Bool-cases (is_complete r.line)) [
  | inr e ↦ rw e refl
  | inl e ↦ rw e (
      append-nil _
      ∙ concat-append r.parsed (r.line ∷ [])
      ∙ ap (λ t. concat r.parsed ++ t) (append-nil r.line))
]

append-seen : (c : ℕ) (r : Reader) → seen (append c r) ≡ seen r ++ c ∷ []
unfolding append seen
append-seen c r = sym (append_assoc (concat r.parsed) r.line (c ∷ []))

byte-seen : (c : ℕ) (r : Reader) → seen (read_byte c r) ≡ seen r ++ (if c == 13 then [] else c ∷ [])
unfolding read_byte
byte-seen c r = elim (Bool-cases (c == 13)) [
  | inl e ↦ rw e (sym (append-nil (seen r)))
  | inr e ↦ rw e (flush-seen (append c r) ∙ append-seen c r)
]

all-seen : (s : Bytes) (r : Reader) → seen (read_all s r) ≡ seen r ++ without_cr s
unfolding read_all without_cr
all-seen [] r = sym (append-nil (seen r))
all-seen (c ∷ s) r = elim (Bool-cases (c == 13)) [
  | inl e ↦
      all-seen s (read_byte c r)
      ∙ ap (λ t. t ++ without_cr s) (byte-seen c r)
      ∙ rw (e, append-nil) refl
  | inr e ↦
      all-seen s (read_byte c r)
      ∙ ap (λ t. t ++ without_cr s) (byte-seen c r)
      ∙ rw (e, append_assoc) refl
]

-- The texts that were parsed and the rest of the line are, one behind the other, what gdb wrote
-- without its carriage returns.
pub read_all-seen :
    (s : Bytes) → concat (read_all s begin).parsed ++ (read_all s begin).line ≡ without_cr s
unfolding seen begin without_cr concat
read_all-seen s = all-seen s begin

-- Between two bytes: what was parsed ended in a prompt, what is left does not, and the byte
-- behind it lies in the buffer.
pub record IsReading (r : Reader) : Type 0 where
  pub complete : All (λ t. is_complete t ≡ true) r.parsed
  pub pending : is_complete r.line ≡ false
  pub room : length r.line < r.len
  pub enough : 0 < r.len

flush-IsReading :
    (r : Reader)
    → All (λ t. is_complete t ≡ true) r.parsed
    → length r.line < r.len
    → IsReading (flush r)
unfolding flush
flush-IsReading r h k = elim (Bool-cases (is_complete r.line)) [
  | inl e ↦ rw e (record {
    complete = All-append (λ t. is_complete t ≡ true) r.parsed (r.line ∷ []) h (e, tt);
    pending = no_prompt;
    room = omega arith;
    enough = omega arith;
  })
  | inr e ↦ rw e (record { complete = h; pending = e; room = k; enough = omega arith })
]
  where
    no_prompt : is_complete [] ≡ false
    no_prompt = unfold is_complete in refl

appended-room :
    (c : ℕ) (r : Reader)
    → length r.line + 1 < 2 ^ 31
    → IsReading r
    → length (append c r).line < (append c r).len
unfolding append enlarge
appended-room c r small h = ground (arith, length-append r.line (c ∷ []))

byte_length : (c : ℕ) (r : Reader) → length (read_byte c r).line ≤ length r.line + 1
unfolding read_byte flush append
byte_length c r = ground (arith, length-append r.line (c ∷ []))

byte-IsReading :
    (c : ℕ) (r : Reader) → length r.line + 1 < 2 ^ 31 → IsReading r → IsReading (read_byte c r)
unfolding read_byte append enlarge
byte-IsReading c r small h = elim (Bool-cases (c == 13)) [
  | inl e ↦ rw e h
  | inr e ↦ rw e (flush-IsReading (append c r) h.complete (appended-room c r small h))
]

-- While fewer than 2^31 bytes are read, every text that is handed to the parser ends in a prompt,
-- the rest does not, and the buffer has room for the rest and its terminator.
pub read_all-IsReading :
    (s : Bytes) (r : Reader)
    → length r.line + length s < 2 ^ 31
    → IsReading r
    → IsReading (read_all s r)
unfolding read_all
read_all-IsReading [] r small h = h
read_all-IsReading (c ∷ s) r small h =
    read_all-IsReading s (read_byte c r) (omega (arith, byte_length c r))
      (byte-IsReading c r (omega arith) h)
