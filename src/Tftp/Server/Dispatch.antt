-- ===== src/Tftp/Server/Dispatch.antt =====
-- Which requests begin a transfer.
use provisioning_station.Base.{
  Bool-cases, Text, ap, arith, contains, inl, inr, refl, subst, sym, text_eq_refl, true, ◌∙◌, ◌∷◌,
  ◌≡◌, ◌⊎◌,
}
use provisioning_station.Tftp.Request.{
  Parsed, ReadRequest, RequestError, parse_request, parsed, rejected,
}
use provisioning_station.Tftp.Server.{
  Server, begin_transfer, begins, dispatch, ignored, is_allowed, transfer_key,
}

begin_transfer-begins :
    (s s' : Server) (remote : Text) (r q : ReadRequest)
    → begin_transfer s remote q ≡ (s', begins r)
    → (q ≡ r) × (s' ≡ record s { active = transfer_key remote r.filename ∷ s.active })
unfolding begin_transfer
begin_transfer-begins s s' remote r q h = ground arith

begin_transfer-again :
    (s : Server) (remote : Text) (r : ReadRequest)
    → begin_transfer (record s { active = transfer_key remote r.filename ∷ s.active }) remote r
      ≡ (record s { active = transfer_key remote r.filename ∷ s.active }, ignored)
unfolding begin_transfer contains
begin_transfer-again s remote r = ground (arith, text_eq_refl (transfer_key remote r.filename))

parsed_cases :
    (p : Parsed) → ((q : ReadRequest) × (p ≡ parsed q)) ⊎ ((e : RequestError) × (p ≡ rejected e))
parsed_cases (parsed q) = inl (q, refl)
parsed_cases (rejected e) = inr (e, refl)

dispatch-allowed :
    (unicode : Text → Text) (say : RequestError → Text) (s : Server) (ip remote packet : Text)
    (q : ReadRequest)
    → is_allowed s ip ≡ true
    → parse_request unicode packet ≡ parsed q
    → dispatch unicode say s ip remote packet ≡ begin_transfer s remote q
unfolding dispatch
dispatch-allowed unicode say s ip remote packet q a p = ground arith

dispatch-begins :
    (unicode : Text → Text) (say : RequestError → Text) (s s' : Server) (ip remote packet : Text)
    (r : ReadRequest)
    → dispatch unicode say s ip remote packet ≡ (s', begins r)
    → (is_allowed s ip ≡ true)
      × (parse_request unicode packet ≡ parsed r)
      × (s' ≡ record s { active = transfer_key remote r.filename ∷ s.active })
unfolding dispatch
dispatch-begins unicode say s s' ip remote packet r h = elim (Bool-cases (is_allowed s ip)) [
  | inr e ↦ absurd (cc (rw (e, dispatch) at h))
  | inl e ↦ elim (parsed_cases (parse_request unicode packet)) [
    | inr (bad, p) ↦ absurd (cc (rw (e, p, dispatch) at h))
    | inl (q, p) ↦
        let reached = dispatch-allowed unicode say s ip remote packet q e p in
        let (one, next_server) = begin_transfer-begins s s' remote r q (sym reached ∙ h) in
        (e, p ∙ ap parsed one, next_server)
  ]
]

-- A packet that begins a transfer comes from the client that is allowed and is parsed to the
-- request that is served, and the same packet from the same address is ignored while that
-- transfer runs.
pub dispatch-dispatch :
    (unicode : Text → Text) (say : RequestError → Text) (s s' : Server) (ip remote packet : Text)
    (r : ReadRequest)
    → dispatch unicode say s ip remote packet ≡ (s', begins r)
    → (is_allowed s ip ≡ true)
      × (parse_request unicode packet ≡ parsed r)
      × (dispatch unicode say s' ip remote packet ≡ (s', ignored))
unfolding is_allowed
dispatch-dispatch unicode say s s' ip remote packet r h =
    let (allowed, read, e) = dispatch-begins unicode say s s' ip remote packet r h in
    let busy : Server = record s { active = transfer_key remote r.filename ∷ s.active } in
    let again : dispatch unicode say busy ip remote packet ≡ (busy, ignored) =
      dispatch-allowed unicode say busy ip remote packet r allowed read
      ∙ begin_transfer-again s remote r in
    (
      allowed,
      read,
      subst (λ v. dispatch unicode say v ip remote packet ≡ (v, ignored)) (sym e) again,
    )
