-- ===== src/Xsdb/Lines.antt =====
-- The lines of a command's output (`lineWriter` of internal/xsdb/executor.go).
use provisioning_station.Base.{
  Bool-cases, List, Option, Option-cases, Text, [], ap, append-nil, append_assoc, arith, concat,
  if◌then◌else◌, inl, inr, is_empty, length, none, refl, some, subst, suc, sym, zero, ℕ, ◌++◌, ◌<◌,
  ◌==◌, ◌∙◌, ◌∷◌, ◌≡◌,
}
use mathlib.Core.Option

-- The buffer, and the lines that were emitted, in order.
pub record LineWriter : Type 0 where
  pub buffer : Text
  pub emitted : List Text

-- `strings.TrimSuffix(line, "\r")`.
unfoldable pub trim_return : Text → Text
trim_return [] = []
trim_return (c ∷ []) = if c == 13 then [] else c ∷ []
trim_return (c ∷ d ∷ s) = c ∷ trim_return (d ∷ s)

-- `emitBuffered`, where there is someone to emit to.
unfoldable pub emit_buffered : LineWriter → LineWriter
emit_buffered w = record { buffer = []; emitted = w.emitted ++ trim_return w.buffer ∷ [] }

abbrev pub with_byte : ℕ → Text × Text → Text × Text
with_byte c (line, rest) = (c ∷ line, rest)

-- `bytes.IndexByte(data, '\n')`, with what is before and behind the byte.
unfoldable pub cut_line : Text → Option (Text × Text)
cut_line [] = none
cut_line (c ∷ s) = if c == 10 then some ([], s) else Option.map (with_byte c) (cut_line s)

abbrev pub keep_bytes : Text → LineWriter → LineWriter
keep_bytes s w = record w { buffer = w.buffer ++ s }

-- The loop of `Write`; each round takes a byte at least.
unfoldable pub write_lines : (fuel : ℕ) → Text → LineWriter → LineWriter
write_lines zero bytes w = w
write_lines (suc fuel) bytes w = elim (cut_line bytes) [
  | none ↦ keep_bytes bytes w
  | some (line, rest) ↦ write_lines fuel rest (emit_buffered (keep_bytes line w))
]

-- `Write`.
unfoldable pub write_chunk_lines : Text → LineWriter → LineWriter
write_chunk_lines bytes w = write_lines (suc (length bytes)) bytes w

-- `Flush`.
unfoldable pub flush : LineWriter → LineWriter
flush w = if is_empty w.buffer then w else emit_buffered w

-- All writes of a command, and the flush at its end.
unfoldable pub write_all : List Text → LineWriter → LineWriter
write_all [] w = w
write_all (chunk ∷ rest) w = write_all rest (write_chunk_lines chunk w)

abbrev pub empty_writer : LineWriter
empty_writer = record { buffer = []; emitted = [] }

-- The lines of a text, byte by byte: those that are complete, and the line that is not.
unfoldable pub lines_of : (line : Text) → Text → List Text × Text
lines_of line [] = ([], line)
lines_of line (c ∷ s) =
    let (more, last) = lines_of [] s in
    let longer = lines_of (line ++ c ∷ []) s in
    if c == 10 then (trim_return line ∷ more, last) else longer

abbrev pub last_line : Text → List Text
last_line [] = []
last_line (c ∷ s) = trim_return (c ∷ s) ∷ []

-- All lines of a text, the last one too where it is not empty.
unfoldable pub all_lines : Text → List Text
all_lines s = let (lines, line) = lines_of [] s in lines ++ last_line line

-- What a text becomes behind a line.
abbrev after_line : Text → Text × Text → List Text × Text
after_line line (front, rest) =
    let (more, last) = lines_of [] rest in (trim_return (line ++ front) ∷ more, last)

map-none {ℓ κ} :
    {A : Type ℓ} {B : Type κ} (f : A → B) (x : Option A) → Option.map f x ≡ none → x ≡ none
map-none f none h = refl
map-none f (some a) h = absurd (cc h)

cut_line-none : (line s : Text) → cut_line s ≡ none → lines_of line s ≡ ([], line ++ s)
unfolding cut_line lines_of
cut_line-none line [] h = ap (λ t. ([], t)) (sym (append-nil line))
cut_line-none line (c ∷ s) h = elim (Bool-cases (c == 10)) [
  | inl e ↦ absurd (cc (rw e at h))
  | inr e ↦ rw e (
      cut_line-none (line ++ c ∷ []) s (map-none (with_byte c) (cut_line s) (rw e at h))
      ∙ ap (λ t. ([], t)) (append_assoc line (c ∷ []) s))
]

cut_line-some :
    (line s : Text) (p : Text × Text)
    → cut_line s ≡ some p
    → (lines_of line s ≡ after_line line p) × (length p.1 < length s)
unfolding cut_line lines_of
cut_line-some line [] p h = absurd (cc h)
cut_line-some line (c ∷ s) p h = elim (Bool-cases (c == 10)) [
  | inl e ↦
      let q : ([], s) ≡ p = cc (rw e at h) in
      subst (λ r. (lines_of line (c ∷ s) ≡ after_line line r) × (length r.1 < length (c ∷ s))) q
        (
          rw e (
              ap (λ t. (trim_return t ∷ (lines_of [] s).0, (lines_of [] s).1))
                (sym (append-nil line))),
          omega arith,
        )
  | inr e ↦ elim (Option-cases (cut_line s)) [
    | inl gone ↦ absurd (cc (rw (e, gone) at h))
    | inr (r, found) ↦
        let (same_lines, shorter) = cut_line-some (line ++ c ∷ []) s r found in
        let q : with_byte c r ≡ p = cc (rw (e, found) at h) in
        subst (λ r. (lines_of line (c ∷ s) ≡ after_line line r) × (length r.1 < length (c ∷ s))) q
          (
            rw e (
                same_lines
                ∙ ap (λ t. (trim_return t ∷ (lines_of [] r.1).0, (lines_of [] r.1).1))
                    (append_assoc line (c ∷ []) r.0)),
            omega (arith, shorter),
          )
  ]
]

-- A writer that has taken a text in addition.
unfoldable pub taken : LineWriter → Text → LineWriter
taken w s =
    let (lines, line) = lines_of w.buffer s in
    record { buffer = line; emitted = w.emitted ++ lines }

write_lines-taken :
    (fuel : ℕ) (s : Text) (w : LineWriter) → length s < fuel → write_lines fuel s w ≡ taken w s
unfolding write_lines taken emit_buffered
write_lines-taken zero s w h = absurd (omega (arith, h))
write_lines-taken (suc fuel) s w h = elim (Option-cases (cut_line s)) [
  | inl e ↦
      rw (e, write_lines)
        (rw (cut_line-none w.buffer s e)
          (ap (λ l. record { buffer = w.buffer ++ s; emitted = l }) (sym (append-nil w.emitted))))
  | inr (p, e) ↦
      let (same_lines, shorter) = cut_line-some w.buffer s p e in
      let line = trim_return (w.buffer ++ p.0) in
      rw (e, write_lines)
        (write_lines-taken fuel p.1 (emit_buffered (keep_bytes p.0 w)) (omega (arith, h, shorter))
          ∙ rw same_lines (
              ap (λ l. record { buffer = (lines_of [] p.1).1; emitted = l })
                (append_assoc w.emitted (line ∷ []) (lines_of [] p.1).0)))
]

lines_of-append :
    (line s t : Text)
    → lines_of line (s ++ t)
      ≡ (let (more, last) = lines_of line s in (more ++ (lines_of last t).0, (lines_of last t).1))
unfolding lines_of
lines_of-append line [] t = refl
lines_of-append line (c ∷ s) t = elim (Bool-cases (c == 10)) [
  | inl e ↦ rw e (rw (lines_of-append [] s t) refl)
  | inr e ↦ rw e (lines_of-append (line ++ c ∷ []) s t)
]

taken-append : (w : LineWriter) (s t : Text) → taken w (s ++ t) ≡ taken (taken w s) t
unfolding taken
taken-append w s t = rw (lines_of-append w.buffer s t) (
    ap (λ l. record { buffer = (lines_of (lines_of w.buffer s).1 t).1; emitted = l })
      (sym (append_assoc w.emitted (lines_of w.buffer s).0 (lines_of (lines_of w.buffer s).1 t).0)))

write_all-taken :
    (chunks : List Text) (w : LineWriter) → write_all chunks w ≡ taken w (concat chunks)
unfolding write_all write_chunk_lines taken lines_of
write_all-taken [] w = ap (λ l. record w { emitted = l }) (sym (append-nil w.emitted))
write_all-taken (chunk ∷ rest) w =
    write_all-taken rest (write_chunk_lines chunk w)
    ∙ ap (λ v. taken v (concat rest)) (write_lines-taken (suc (length chunk)) chunk w (omega arith))
    ∙ sym (taken-append w chunk (concat rest))

flush-emitted : (w : LineWriter) → (flush w).emitted ≡ w.emitted ++ last_line w.buffer
unfolding flush emit_buffered
flush-emitted w =
    elim w.buffer
      as (λ b.
        (if is_empty b
          then record w { buffer = b }
          else emit_buffered (record w { buffer = b })).emitted
        ≡ w.emitted ++ last_line b) [ [] ↦ sym (append-nil w.emitted) | c ∷ s ↦ refl ]

-- However the output of a command is cut into writes, what is emitted by them and the flush at
-- the end are the lines of the whole output in order, each without the carriage return at its
-- end, the last one too if it is not empty.
pub flush-write_all :
    (chunks : List Text)
    → (flush (write_all chunks empty_writer)).emitted ≡ all_lines (concat chunks)
unfolding all_lines taken
flush-write_all chunks =
    ap (λ w. (flush w).emitted) (write_all-taken chunks empty_writer)
    ∙ flush-emitted (taken empty_writer (concat chunks))
