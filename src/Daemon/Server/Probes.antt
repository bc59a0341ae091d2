-- ===== src/Daemon/Server/Probes.antt =====
-- At most one authenticated probe at a time, with requests that overlap.
use op_forward.Http.{HttpRequest, HttpResponse}
use op_forward.OpCheck.Check.{Options}
use op_forward.Daemon.Server.{
  Server, Config, Occasion, answered, checking, begin_health_op, end_health_op, serve,
  handle_execute, handle_health, handle_token_refresh, rotate,
}
use op_forward.Prelude.{
  ℕ, ◌+◌, ◌≤◌, ◌≡◌, ◌↔◌, true, false, List, [], ◌∷◌, ◌++◌, arith, if◌then◌else◌, codes, text_eq,
}

-- The server with the checks that run at the moment.
pub record Live : Type 0 where
  pub server : Server
  pub active : List Options

abbrev pub authenticated_count : List Options → ℕ
authenticated_count [] = 0
authenticated_count (opts ∷ rest) = (if opts.authenticated then 1 else 0) + authenticated_count rest

module _ (cfg : Config) where
  -- A /health/op request begins a check or is answered, a check that runs ends, or a request to
  -- another path is served, in any order.
  pub data Step : Live → Live → Type 0 where
    begins :
        (now : ℕ) (l : Live) (r : HttpRequest) (s : Server) (opts : Options)
        → begin_health_op cfg now l.server r ≡ (s, checking opts)
        → Step l (record { server = s; active = opts ∷ l.active })
    answers :
        (now : ℕ) (l : Live) (r : HttpRequest) (s : Server) (response : HttpResponse)
        → begin_health_op cfg now l.server r ≡ (s, answered response)
        → Step l (record l { server = s })
    ends :
        (o : Occasion) (s : Server) (before after : List Options) (opts : Options)
        → Step
            (record { server = s; active = before ++ opts ∷ after })
            (record { server = (end_health_op cfg o s opts).0; active = before ++ after })
    serves :
        (o : Occasion) (l : Live) (r : HttpRequest)
        → text_eq r.path (codes "/health/op") ≡ false
        → Step l (record l { server = (serve cfg o l.server r).server })

  pub data Reach (start : Live) : Live → Type 0 where
    here : Reach start start
    next : {l m : Live} → Reach start l → Step l m → Reach start m

  -- `probeMu` is held exactly by the one authenticated check that runs.
  abbrev pub HoldsLock : Live → Type 0
  HoldsLock l = authenticated_count l.active ≡ (if l.server.probing then 1 else 0)

  begins-HoldsLock :
      (now : ℕ) (l : Live) (r : HttpRequest) (s : Server) (opts : Options)
      → begin_health_op cfg now l.server r ≡ (s, checking opts)
      → HoldsLock l
      → HoldsLock (record { server = s; active = opts ∷ l.active })
  unfolding begin_health_op
  begins-HoldsLock now l r s opts e h = ground arith

  answers_same :
      (now : ℕ) (l : Live) (r : HttpRequest) (s : Server) (response : HttpResponse)
      → begin_health_op cfg now l.server r ≡ (s, answered response)
      → s.probing ≡ l.server.probing
  unfolding begin_health_op
  answers_same now l r s response e = ground arith

  count-append :
      (xs ys : List Options)
      → authenticated_count (xs ++ ys) ≡ authenticated_count xs + authenticated_count ys
  count-append [] ys = omega arith
  count-append (x ∷ xs) ys = omega (arith, count-append xs ys)

  ends-HoldsLock :
      (o : Occasion) (s : Server) (before after : List Options) (opts : Options)
      → HoldsLock (record { server = s; active = before ++ opts ∷ after })
      → HoldsLock (record { server = (end_health_op cfg o s opts).0; active = before ++ after })
  unfolding end_health_op
  ends-HoldsLock o s before after opts h =
      ground (arith, count-append before (opts ∷ after), count-append before after)

  serves_same :
      (o : Occasion) (s : Server) (r : HttpRequest)
      → text_eq r.path (codes "/health/op") ≡ false
      → (serve cfg o s r).server.probing ≡ s.probing
  unfolding serve handle_health handle_execute handle_token_refresh rotate
  serves_same o s r h = ground arith

  Step-HoldsLock : {l m : Live} → Step l m → HoldsLock l → HoldsLock m
  Step-HoldsLock (begins now l r s opts e) h = begins-HoldsLock now l r s opts e h
  Step-HoldsLock (answers now l r s response e) h = rw (answers_same now l r s response e) h
  Step-HoldsLock (ends o s before after opts) h = ends-HoldsLock o s before after opts h
  Step-HoldsLock (serves o l r other) h = rw (serves_same o l.server r other) h

  Reach-HoldsLock : {l m : Live} → HoldsLock l → Reach l m → HoldsLock m
  Reach-HoldsLock h here = h
  Reach-HoldsLock h (next r st) = Step-HoldsLock st (Reach-HoldsLock h r)

  -- However requests overlap, from a server on which no check runs: at most one authenticated check
  -- runs, and exactly while the lock is held.
  pub probes_exclusive :
      (s : Server) (l : Live)
      → s.probing ≡ false
      → Reach (record { server = s; active = [] }) l
      → (authenticated_count l.active ≤ 1)
        × ((authenticated_count l.active ≡ 1) ↔ (l.server.probing ≡ true))
  probes_exclusive s l idle reach =
      let held = Reach-HoldsLock (ground (arith, idle)) reach in ground (arith, held)
