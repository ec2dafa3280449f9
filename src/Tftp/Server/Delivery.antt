-- ===== src/Tftp/Server/Delivery.antt =====
-- A request from the first packet to the last.
use provisioning_station.Base.{
  Bool-cases, List, Option-cases, Text, [], ap, arith, codes, inl, inr, length, none, refl, some,
  subst, suc, sym, zero, ℕ, ◌++◌, ◌∙◌, ◌∷◌, ◌≡◌, ◌≢◌, ◌⊎◌,
}
use provisioning_station.Tftp.Exchange.{Exchanged, TransferError, exchange}
use provisioning_station.Tftp.Exchange.Laws.{copies, exchange-copies}
use provisioning_station.Tftp.Options.{
  Agreement, Limits, Negotiated, OptionError, agreed, disagreed, negotiate,
}
use provisioning_station.Tftp.Packets.{error_packet, option_ack_packet, read_word}
use provisioning_station.Tftp.Request.{ReadRequest}
use provisioning_station.Tftp.Server.{
  ServeError, Service, Session, cannot_open, failure, file_not_found, no_socket, not_regular,
  option_error, report, serve_agreed, serve_blocks, serve_open, serve_request, started_event,
  transfer_error, transfer_failure, unfinished,
}
use provisioning_station.Tftp.Transfer.{
  Transfer, TransferEnd, completed, failed_with, out_of_fuel, send_blocks,
}
use provisioning_station.Tftp.Transfer.Received.{receive, send_blocks-receive}

receive_options :
    (size expected : ℕ) (got : Text) (options : List (Text × Text)) (n : ℕ) (rest : List Text)
    → receive size expected got (copies n (option_ack_packet options) ++ rest)
      ≡ receive size expected got rest
unfolding receive option_ack_packet read_word
receive_options size expected got options zero rest = refl
receive_options size expected got options (suc n) rest =
    ground (arith, receive_options size expected got options n rest)

module _ (s : Session) (remote : Text) (r : ReadRequest) where
  -- The events of a request that completes.
  abbrev pub Reports : Service → ℕ → Type 0
  Reports service bytes =
      service.events
      ≡ started_event s remote r
        ∷ report s.ended_at r.filename remote bytes none (codes "completed")
        ∷ []

  failure_ne :
      (sent : List Text) (n bytes : ℕ) (e : ServeError)
      → ¬ Reports (failure s remote r sent n e) bytes
  unfolding report
  failure_ne sent n bytes e h = cc h

  -- What it is to hand a whole file to a client that follows RFC 1350.
  Delivers : Agreement → Service → ℕ → Type 0
  Delivers a service bytes =
      (receive a.block_size 1 [] service.packets ≡ some s.content) × (bytes ≡ length s.content)

  reported_bytes :
      (n bytes : ℕ) (packets : List Text)
      → Reports
          (record {
            packets = packets;
            events =
                started_event s remote r
                ∷ report s.ended_at r.filename remote n none (codes "completed")
                ∷ [];
          })
          bytes
      → bytes ≡ n
  unfolding report
  reported_bytes n bytes packets h = cc h

  ending_cases :
      (e : TransferEnd)
      → (e ≡ completed) ⊎ (e ≡ out_of_fuel) ⊎ ((x : TransferError) × (e ≡ failed_with x))
  ending_cases completed = inl refl
  ending_cases out_of_fuel = inr (inl refl)
  ending_cases (failed_with x) = inr (inr (x, refl))

  serve_blocks-Delivers :
      (l : Limits) (a : Agreement) (n bytes : ℕ)
      → Reports
          (serve_blocks s remote r l a (copies n (option_ack_packet a.accepted_options)))
          bytes
      → Delivers a
          (serve_blocks s remote r l a (copies n (option_ack_packet a.accepted_options)))
          bytes
  unfolding serve_blocks Delivers
  serve_blocks-Delivers l a n bytes h =
      let sent = copies n (option_ack_packet a.accepted_options) in
      let t : Transfer =
        send_blocks a.block_size l.retries s.rounds (suc (length s.content)) 0 1 0 s.content in
      elim (ending_cases t.ending) [
        | inl e ↦
            let (content, count) =
              send_blocks-receive a.block_size l.retries s.rounds (suc (length s.content)) 0 1 0
                s.content [] (omega arith) e in
            let same_bytes =
              reported_bytes t.transferred bytes (sent ++ t.packets) (rw (e, serve_blocks) at h) in
            rw (e, serve_blocks)
              (
                receive_options a.block_size 1 [] a.accepted_options n t.packets ∙ content,
                omega (arith, same_bytes, count),
              )
        | inr (inl e) ↦ absurd (
            failure_ne (sent ++ t.packets) t.transferred bytes unfinished
              (rw (e, serve_blocks) at h))
        | inr (inr (x, e)) ↦ absurd (
            failure_ne (sent ++ t.packets) t.transferred bytes (transfer_error x)
              (rw (e, serve_blocks) at h))
      ]

  list_cases :
      (os : List (Text × Text))
      → (os ≡ []) ⊎ ((o : Text × Text) × (rest : List (Text × Text)) × (os ≡ o ∷ rest))
  list_cases [] = inl refl
  list_cases (o ∷ rest) = inr (o, rest, refl)

  -- A request that completes has its options acknowledged, if there are any.
  serve_agreed-blocks :
      (l : Limits) (a : Agreement) (bytes : ℕ)
      → Reports (serve_agreed s remote r l a) bytes
      → (n : ℕ) × (serve_agreed s remote r l a
          ≡ serve_blocks s remote r l a (copies n (option_ack_packet a.accepted_options)))
  unfolding serve_agreed
  serve_agreed-blocks l a bytes h =
      let packet = option_ack_packet a.accepted_options in
      let x : Exchanged = exchange packet 0 l.retries s.option_attempts 0 in
      let sent = (exchange-copies packet 0 l.retries s.option_attempts 0).0 in
      elim (list_cases a.accepted_options) [
        | inl e ↦ (0, simp (e, serve_agreed) refl)
        | inr (o, os, e) ↦ elim (Option-cases x.problem) [
          | inl fine ↦
              let reached : serve_agreed s remote r l a ≡ serve_blocks s remote r l a x.sent =
                ground arith in
              (length x.sent, reached ∙ ap (serve_blocks s remote r l a) sent)
          | inr (bad, fails) ↦
              absurd
                (failure_ne x.sent 0 bytes (transfer_error bad) (rw (e, serve_agreed, fails) at h))
        ]
      ]

  serve_agreed-Delivers :
      (l : Limits) (a : Agreement) (bytes : ℕ)
      → Reports (serve_agreed s remote r l a) bytes
      → Delivers a (serve_agreed s remote r l a) bytes
  serve_agreed-Delivers l a bytes h =
      let (n, e) = serve_agreed-blocks l a bytes h in
      subst (λ v. Delivers a v bytes) (sym e)
        (serve_blocks-Delivers l a n bytes (subst (λ v. Reports v bytes) e h))

  negotiated_cases :
      (n : Negotiated)
      → ((a : Agreement) × (n ≡ agreed a)) ⊎ ((e : OptionError) × (n ≡ disagreed e))
  negotiated_cases (agreed a) = inl (a, refl)
  negotiated_cases (disagreed e) = inr (e, refl)

  serve_open-agreed :
      (say : OptionError → Text) (l : Limits) (bytes : ℕ)
      → Reports (serve_open s remote r say l) bytes
      → (a : Agreement) × (negotiate l r.options s.size ≡ agreed a)
        × (serve_open s remote r say l ≡ serve_agreed s remote r l a)
  unfolding serve_open
  serve_open-agreed say l bytes h = elim (negotiated_cases (negotiate l r.options s.size)) [
    | inl (a, e) ↦ (a, e, rw (e, serve_open) refl)
    | inr (bad, e) ↦ absurd (
        failure_ne (error_packet 8 (say bad) ∷ []) 0 bytes (option_error bad)
          (rw (e, serve_open) at h))
  ]

  transfer_failure_ne :
      (code : ℕ) (message : Text) (e : ServeError) (bytes : ℕ)
      → ¬ Reports (transfer_failure s remote r code message e) bytes
  unfolding transfer_failure
  transfer_failure_ne code message e bytes h =
      failure_ne (elim s.socket_error [ none ↦ error_packet code message ∷ [] | some f ↦ [] ]) 0
        bytes e h

  -- A request that completes found a regular file and a socket.
  serve_request-open :
      (say : OptionError → Text) (l : Limits) (bytes : ℕ)
      → Reports (serve_request s remote r say l) bytes
      → serve_request s remote r say l ≡ serve_open s remote r say l
  unfolding serve_request
  serve_request-open say l bytes h =
      let served = serve_request s remote r say l in
      let no_failure : (code : ℕ) (message : Text) (e : ServeError)
          → served ≢ transfer_failure s remote r code message e =
        λ code message e q.
          transfer_failure_ne code message e bytes (subst (λ w. Reports w bytes) q h) in
      let no_way : (e : ServeError) → served ≢ failure s remote r [] 0 e =
        λ e q. failure_ne [] 0 bytes e (subst (λ w. Reports w bytes) q h) in
      elim (Option-cases s.lstat_error) [
        | inr (f, e) ↦
            absurd (no_failure 1 (codes "file not found") (file_not_found f) (ground arith))
        | inl e ↦ elim (Bool-cases s.is_regular) [
          | inr b ↦ absurd (
              no_failure 2 (codes "requested path is not a regular file") not_regular
                (ground arith))
          | inl b ↦ elim (Option-cases s.open_error) [
            | inr (f, c) ↦
                absurd
                  (no_failure 2 (codes "cannot open requested file") (cannot_open f) (ground arith))
            | inl c ↦ elim (Option-cases s.socket_error) [
              | inr (f, d) ↦ absurd (no_way (no_socket f) (ground arith))
              | inl d ↦ ground arith
            ]
          ]
        ]
      ]

  -- Whatever the network and the client do, if the server reports a request as completed, then
  -- the options were agreed on, a client that follows RFC 1350 and has seen all packets that
  -- were sent holds exactly the content of the file, and the number of bytes reported is its
  -- length.
  pub serve_request-delivers :
      (say : OptionError → Text) (l : Limits) (bytes : ℕ)
      → Reports (serve_request s remote r say l) bytes
      → (a : Agreement) × (negotiate l r.options s.size ≡ agreed a)
        × (receive a.block_size 1 [] (serve_request s remote r say l).packets ≡ some s.content)
        × (bytes ≡ length s.content)
  unfolding Delivers
  serve_request-delivers say l bytes h =
      let found = serve_request-open say l bytes h in
      let (a, n, e') = serve_open-agreed say l bytes (subst (λ v. Reports v bytes) found h) in
      let e = found ∙ e' in
      let (content, count) = serve_agreed-Delivers l a bytes (subst (λ v. Reports v bytes) e h) in
      (a, n, ap (λ v. receive a.block_size 1 [] v.packets) e ∙ content, count)
