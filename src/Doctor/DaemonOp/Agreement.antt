-- ===== src/Doctor/DaemonOp/Agreement.antt =====
-- The two checks that report a failed renewal.
use op_forward.Files.{Disk, Saved}
use op_forward.Http.{TokenResponse}
use op_forward.Proxy.Exchange.{
  Transport, refresh_request, Refreshed, renewed, refresh_error, read_refresh,
}
use op_forward.Proxy.Tokens.{access, refresh, write_token_file}
use op_forward.Doctor.{daemon_op, fail, Check, Component, component, as_check}
use op_forward.Doctor.Tokens.{
  Doctor, Renewal, idle, done, renewal_failed, State, settle, save_pair, pair_saved, not_saved,
  token_fix_action, path_of, renew_access_token, read_valid_token_value, read_access_token_value,
  check_tokens, is_nil, not_renewed,
}
use op_forward.Doctor.Health.{Got, doctor_get}
use op_forward.Doctor.DaemonOp.{
  ask_daemon, judged, retried, retry_with, unless_rejected, announce, query_with, queried, decline,
  query_without_access, query_access, query_daemon_op, check_daemon_op, renewal_finding,
  is_unauthorized, is_idle,
}
use op_forward.Prelude.{
  ◌≡◌, refl, sym, ◌∙◌, ◌≢◌, ◌⊎◌, inl, inr, Bool, true, false, ◌&&◌, ◌||◌, not, Option, none, some,
  [], ◌++◌, arith, if◌then◌else◌, Text, codes,
}

some_ne : {token : Text} → some token ≢ none
some_ne h = ground (arith, h)

abbrev HasNotFailed : Renewal → Type 0
HasNotFailed r = (f : Component) → r ≢ renewal_failed f

module _ (doc : Doctor) {W : Type 0} (send : Transport W) where
  abbrev Agrees : State W × Check → Type 0
  Agrees x = (f : Component) → x.0.renewal ≡ renewal_failed f → x.1 ≡ as_check f daemon_op []

  -- A renewal either fails and gives no token, or is done.
  abbrev IsSettled : State W × Option Text → Type 0
  IsSettled x =
      ((x.1 ≡ none) × ((f : Component) × (x.0.renewal ≡ renewal_failed f)))
      ⊎ ((token : Text) × (x.1 ≡ some token) × (x.0.renewal ≡ done))

  not_renewed-IsSettled :
      (s : State W) (summary action : Text) → IsSettled (not_renewed doc send s summary action)
  not_renewed-IsSettled s summary action = inl (refl, (component fail summary action, refl))

  if-IsSettled :
      (b : Bool) (x y : State W × Option Text)
      → IsSettled x
      → IsSettled y
      → IsSettled (if b then x else y)
  if-IsSettled true x y hx hy = hx
  if-IsSettled false x y hx hy = hy

  not_saved-IsSettled : (s : State W) (d : Disk) → IsSettled (not_saved doc send s d)
  not_saved-IsSettled s d = not_renewed-IsSettled (record s { disk = d }) _ _

  pair_saved-IsSettled :
      (s : State W) (t : TokenResponse) (first second : Saved)
      → IsSettled (pair_saved doc send s t first second)
  pair_saved-IsSettled s t first second =
      if-IsSettled (not first.ok) (not_saved doc send s first.disk)
        (if not second.ok
          then not_saved doc send s second.disk
          else (record s { disk = second.disk; renewal = done }, some t.access_token))
        (not_saved-IsSettled s first.disk)
        (if-IsSettled (not second.ok) (not_saved doc send s second.disk)
          (record s { disk = second.disk; renewal = done }, some t.access_token)
          (not_saved-IsSettled s second.disk) (inr (t.access_token, refl, refl)))

  save_pair-IsSettled : (s : State W) (t : TokenResponse) → IsSettled (save_pair doc send s t)
  save_pair-IsSettled s t =
      let first =
        write_token_file s.disk (path_of doc access) t.access_token t.access_expires
          doc.access_save in
      pair_saved-IsSettled s t first (
        write_token_file first.disk (path_of doc refresh) t.refresh_token t.refresh_expires
          doc.refresh_save)

  settle-IsSettled : (s : State W) (r : Refreshed) → IsSettled (settle doc send s r)
  settle-IsSettled s (refresh_error e) =
      not_renewed-IsSettled s
        (codes "could not renew the access token from the refresh token: " ++ e)
        (token_fix_action doc)
  settle-IsSettled s (renewed t) =
      if-IsSettled (is_nil t.access_token || is_nil t.refresh_token)
        (not_renewed doc send s
          (codes "could not renew the access token: the daemon's refresh answer was incomplete")
          (token_fix_action doc))
        (save_pair doc send s t)
        (not_renewed-IsSettled s
          (codes "could not renew the access token: the daemon's refresh answer was incomplete")
          (token_fix_action doc))
        (save_pair-IsSettled s t)

  renew_access_token-IsSettled :
      (s : State W) (token : Text) → IsSettled (renew_access_token doc send s token)
  unfolding renew_access_token
  renew_access_token-IsSettled s token =
      let r = send s.world (refresh_request doc.version doc.uid token) in
      settle-IsSettled (record s { world = r.0 }) (read_refresh doc.json r.1)

  finding-Agrees : (s : State W) → Agrees (s, renewal_finding doc send s.renewal)
  finding-Agrees s f h = rw h refl

  if-Agrees : (b : Bool) (x y : State W × Check) → Agrees x → Agrees y → Agrees (if b then x else y)
  if-Agrees true x y hx hy = hx
  if-Agrees false x y hx hy = hy

  judged-Agrees : (s : State W) (g : Got) → HasNotFailed s.renewal → Agrees (judged doc send (s, g))
  judged-Agrees s g ne f h = absurd (ne f h)

  ask-renewal : (s : State W) (token : Text) → (ask_daemon doc send s token).0.renewal ≡ s.renewal
  unfolding doctor_get
  ask-renewal s token = refl

  after_ask :
      (s : State W) (token : Text)
      → HasNotFailed s.renewal
      → Agrees (judged doc send (ask_daemon doc send s token))
  after_ask s token ne =
      judged-Agrees (ask_daemon doc send s token).0 (ask_daemon doc send s token).1
        (λ f h. ne f (sym (ask-renewal s token) ∙ h))

  retried-Agrees : (x : State W × Option Text) → IsSettled x → Agrees (retried doc send x)
  retried-Agrees (s, none) h = finding-Agrees s
  retried-Agrees (s, some token) (inl h) = absurd (some_ne h.0)
  retried-Agrees (s, some token) (inr (t, given, e)) = after_ask s token (λ f h. cc (sym e ∙ h))

  retry_with-Agrees :
      (s : State W) (g : Got) (token : Option Text)
      → HasNotFailed s.renewal
      → Agrees (retry_with doc send s g token)
  retry_with-Agrees s g none ne = judged-Agrees s g ne
  retry_with-Agrees s g (some token) ne =
      retried-Agrees (renew_access_token doc send s token) (renew_access_token-IsSettled s token)

  unless_rejected-Agrees :
      (x : State W × Got) → HasNotFailed x.0.renewal → Agrees (unless_rejected doc send x)
  unless_rejected-Agrees (s, g) ne =
      if-Agrees (is_unauthorized doc send g && (is_idle doc send s.renewal && not doc.no_refresh))
        (retry_with doc send s g (read_valid_token_value doc s.disk refresh))
        (judged doc send (s, g))
        (retry_with-Agrees s g (read_valid_token_value doc s.disk refresh) ne)
        (judged-Agrees s g ne)

  announce_renewal : (s : State W) → (announce doc send s).renewal ≡ s.renewal
  announce_renewal s = ground arith

  query_with-Agrees :
      (s : State W) (token : Text) → HasNotFailed s.renewal → Agrees (query_with doc send s token)
  query_with-Agrees s token ne =
      unless_rejected-Agrees (ask_daemon doc send (announce doc send s) token) (λ f h.
        ne f (sym (announce_renewal s) ∙ (sym (ask-renewal (announce doc send s) token) ∙ h)))

  queried-Agrees : (x : State W × Option Text) → IsSettled x → Agrees (queried doc send x)
  queried-Agrees (s, none) h = finding-Agrees s
  queried-Agrees (s, some token) (inl h) = absurd (some_ne h.0)
  queried-Agrees (s, some token) (inr (t, given, e)) =
      query_with-Agrees s token (λ f h. cc (sym e ∙ h))

  query_without_access-Agrees :
      (s : State W) (token : Option Text)
      → HasNotFailed s.renewal
      → Agrees (query_without_access doc send s token)
  query_without_access-Agrees s none ne = λ f h. absurd (ne f h)
  query_without_access-Agrees s (some token) ne =
      if-Agrees doc.no_refresh (decline doc send s)
        (queried doc send (renew_access_token doc send s token)) (λ f h. cc h)
        (queried-Agrees (renew_access_token doc send s token)
          (renew_access_token-IsSettled s token))

  query_access-Agrees :
      (s : State W) (token : Option Text)
      → HasNotFailed s.renewal
      → Agrees (query_access doc send s token)
  query_access-Agrees s none ne =
      query_without_access-Agrees s (read_valid_token_value doc s.disk refresh) ne
  query_access-Agrees s (some token) ne = query_with-Agrees s token ne

  -- A failed renewal is reported twice in the same words: if a run, which starts without one, ends
  -- with a failed renewal, then the daemon_op check and the tokens check have its status, summary
  -- and action.
  pub check_daemon_op_agrees :
      (s : State W) (up : Bool) (f : Component)
      → s.renewal ≡ idle
      → (check_daemon_op doc send s up).0.renewal ≡ renewal_failed f
      → ((check_daemon_op doc send s up).1 ≡ as_check f daemon_op [])
        × ((check_tokens doc send (check_daemon_op doc send s up).0).status ≡ f.status)
        × ((check_tokens doc send (check_daemon_op doc send s up).0).summary ≡ f.summary)
        × ((check_tokens doc send (check_daemon_op doc send s up).0).action ≡ f.action)
  unfolding check_daemon_op query_daemon_op check_tokens
  check_daemon_op_agrees s false f fresh h = absurd (cc (sym fresh ∙ h))
  check_daemon_op_agrees s true f fresh h = rw h (
    query_access-Agrees s (read_access_token_value doc s.disk) (λ e k. cc (sym fresh ∙ k)) f h,
    refl,
    refl,
    refl,
  )
