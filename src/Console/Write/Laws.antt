-- ===== src/Console/Write/Laws.antt =====
-- What the handle gets of a write.
use provisioning_station.Base.{
  Bool-cases, Failure, Option-cases, Text, [], ap, append-nil, append_assoc, arith, drop, inl, inr,
  length, length-drop, lookup, none, refl, some, suc, sym, take, take-append-drop, text_key, true,
  zero, ℕ, ◌++◌, ◌==◌, ◌∙◌, ◌∷◌, ◌≡◌, ◌≤◌, ◌⊎◌,
}
use provisioning_station.Base.Int.{negsuc, pos}
use provisioning_station.Console.Model.{Connection, Console}
use provisioning_station.Console.Write.{Written, takes, write, write_fails, write_loop}

written_cases :
    (w : Written)
    → ((f : Failure) × (w ≡ write_fails f))
      ⊎ ((w ≡ takes (pos 0)) ⊎ ((n : ℕ) × (w ≡ takes (negsuc n))))
      ⊎ ((n : ℕ) × (w ≡ takes (pos (suc n))))
written_cases (write_fails f) = inl (f, refl)
written_cases (takes (pos zero)) = inr (inl (inl refl))
written_cases (takes (negsuc n)) = inr (inl (inr (n, refl)))
written_cases (takes (pos (suc n))) = inr (inr (n, refl))

-- The handle gets the front of the bytes, and all of them unless there is an error.
pub write_loop_front :
    (device : ℕ → Written) (fuel k : ℕ) (payload : Text)
    → (rest : Text) × (((write_loop device fuel k payload).bytes ++ rest) ≡ payload)
      × ((write_loop device fuel k payload).problem ≡ none → rest ≡ [])
unfolding write_loop
write_loop_front device fuel k [] = ([], refl, λ h. refl)
write_loop_front device zero k (b ∷ bs) = (b ∷ bs, refl, λ h. absurd (cc h))
write_loop_front device (suc fuel) k (b ∷ bs) = elim (written_cases (device k)) [
  | inl (f, e) ↦ (b ∷ bs, rw (e, write_loop) refl, rw (e, write_loop) (λ h. absurd (cc h)))
  | inr (inl (inl e)) ↦ (b ∷ bs, rw (e, write_loop) refl, rw (e, write_loop) (λ h. absurd (cc h)))
  | inr (inl (inr (n, e))) ↦
      (b ∷ bs, rw (e, write_loop) refl, rw (e, write_loop) (λ h. absurd (cc h)))
  | inr (inr (n, e)) ↦
      let front = take (suc n) (b ∷ bs) in
      let left = drop (suc n) (b ∷ bs) in
      let (rest, split, complete) = write_loop_front device fuel (suc k) left in
      (
        rest,
        rw (e, write_loop)
            (append_assoc front (write_loop device fuel (suc k) left).bytes rest
              ∙ ap (λ t. front ++ t) split
              ∙ take-append-drop (suc n) (b ∷ bs)),
        rw (e, write_loop) complete,
      )
]

-- A device that takes at least a byte every time.
abbrev pub TakesSome : (ℕ → Written) → Type 0
TakesSome device = (k : ℕ) → (n : ℕ) × (device k ≡ takes (pos (suc n)))

write_loop_completes :
    (device : ℕ → Written) (fuel k : ℕ) (payload : Text)
    → TakesSome device
    → length payload ≤ fuel
    → (write_loop device fuel k payload).problem ≡ none
unfolding write_loop
write_loop_completes device fuel k [] t h = refl
write_loop_completes device zero k (b ∷ bs) t h = absurd (omega arith)
write_loop_completes device (suc fuel) k (b ∷ bs) t h =
    let (n, e) = t k in
    rw (e, write_loop)
      (write_loop_completes device fuel (suc k) (drop (suc n) (b ∷ bs)) t
        (omega (arith, length-drop n bs)))

-- A write that succeeds has handed the device exactly the bytes of the caller, in order, and the
-- caller was the controller of an open connection. Conversely the write of that controller
-- succeeds on a device that always takes some of what it is given, at least a byte.
pub write_lem :
    (device : ℕ → Written) (m : Console) (k : Text) (id : ℕ) (payload : Text)
    → ((write device m k id payload).problem ≡ none
        → ((write device m k id payload).bytes ≡ payload)
          × (c : Connection) × (lookup k m.connections ≡ some c)
          × (c.controller ≡ id))
      × ((c : Connection)
          → lookup k m.connections ≡ some c
          → c.controller ≡ id
          → TakesSome device
          → (write device m k id payload).problem ≡ none)
unfolding write
write_lem device m k id payload = (
  λ h. elim (Option-cases (lookup k m.connections)) [
    | inl e ↦ absurd (cc (rw (e, write) at h))
    | inr (c, e) ↦ elim (Bool-cases (c.controller == id)) [
      | inr q ↦ absurd (cc (rw q at (rw (e, write) at h)))
      | inl q ↦
          let (rest, split, complete) = write_loop_front device (length payload) 0 payload in
          let fine : (write_loop device (length payload) 0 payload).problem ≡ none =
            rw q at (rw (e, write) at h) in
          (
            rw (e, write)
                (rw q (
                  sym (append-nil _)
                  ∙ ap (λ t. (write_loop device (length payload) 0 payload).bytes ++ t)
                      (sym (complete fine))
                  ∙ split)),
            c,
            e,
            ground (arith, q),
          )
    ]
  ],
  λ c e q t.
      let holds : (c.controller == id) ≡ true = ground (arith, q) in
      rw (e, write)
        (rw holds (write_loop_completes device (length payload) 0 payload t (omega arith))),
)
