-- ===== src/Proxy/Command/Precedence.antt =====
-- Which endpoint `runProxy` of cmd/proxy.go dials: the flags over the environment (cmd/config.go).
use op_forward.Prelude.{
  ◌≡◌, refl, ap, ◌∙◌, inl, inr, Bool, true, false, ◌||◌, some, List, [], ◌∷◌, arith, if◌then◌else◌,
  Bool-cases, Text, codes, text_eq, text_eq_iff,
}
use std.Path.{subst}
use op_forward.Prelude.Int.{ℤ}
use op_forward.Go.Flag.{given, err_help, err_usage, Given, parse, was_set}
use op_forward.Go.Flag.Invariant.{parse_inv}
use op_forward.Flags.{flags, result_of, parse_flags}
use op_forward.Endpoint.Config.{port_from_env, host_from_env, endpoint_arg, for_dial}
use op_forward.Endpoint.Address.{Endpoint}
use op_forward.Files.{Disk}
use op_forward.Proxy.Exchange.{Transport}
use op_forward.Proxy.Run.{Client}
use op_forward.Proxy.Command.{
  Settings, Surroundings, defaults, flag_set, run_at, run_flags, run_proxy_command,
}

module _ (around : Surroundings) where
  abbrev Keeps : Settings → List Text → Type 0
  Keeps s seen =
      (was_set seen (codes "addr") ≡ false → s.addr ≡ around.addr)
      × (was_set seen (codes "host") ≡ false → s.host ≡ host_from_env around.host)
      × (was_set seen (codes "port") ≡ false → s.port ≡ port_from_env around.port)
      × (was_set seen (codes "listen") ≡ false)

  set-addr :
      (s s' : Settings) (name value : Text)
      → (flag_set around).set name value s ≡ some s'
      → text_eq name (codes "addr") ≡ false
      → s'.addr ≡ s.addr
  set-addr s s' name value e other = ground arith

  set-host :
      (s s' : Settings) (name value : Text)
      → (flag_set around).set name value s ≡ some s'
      → text_eq name (codes "host") ≡ false
      → s'.host ≡ s.host
  set-host s s' name value e other = ground arith

  set-port :
      (s s' : Settings) (name value : Text)
      → (flag_set around).set name value s ≡ some s'
      → text_eq name (codes "port") ≡ false
      → s'.port ≡ s.port
  set-port s s' name value e other = ground arith

  -- A flag of the proxy is no --listen.
  not_listen :
      (name : Text) (b : Bool)
      → (flag_set around).is_bool name ≡ some b
      → text_eq name (codes "listen") ≡ false
  not_listen name b e = elim (Bool-cases (text_eq name (codes "listen"))) [
    | inr other ↦ other
    | inl listen ↦ absurd (
        no_flag (
          subst (λ n. (flag_set around).is_bool n ≡ some b)
            ((text_eq_iff name (codes "listen")).0 listen) e))
  ]
    where
      no_flag : (flag_set around).is_bool (codes "listen") ≡ some b → ⊥
      no_flag h = unfold text_eq in ground (arith, h)

  keeps :
      (s s' : Settings) (seen : List Text) (name value : Text) (b : Bool)
      → (flag_set around).is_bool name ≡ some b
      → (flag_set around).set name value s ≡ some s'
      → Keeps s seen
      → Keeps s' (name ∷ seen)
  unfolding was_set
  keeps s s' seen name value b e set (addr, host, port, listen) = (
    λ untyped.
        set-addr s s' name value set
          (left (text_eq name (codes "addr")) (was_set seen (codes "addr")) untyped)
        ∙ addr (right (text_eq name (codes "addr")) (was_set seen (codes "addr")) untyped),
    λ untyped.
        set-host s s' name value set
          (left (text_eq name (codes "host")) (was_set seen (codes "host")) untyped)
        ∙ host (right (text_eq name (codes "host")) (was_set seen (codes "host")) untyped),
    λ untyped.
        set-port s s' name value set
          (left (text_eq name (codes "port")) (was_set seen (codes "port")) untyped)
        ∙ port (right (text_eq name (codes "port")) (was_set seen (codes "port")) untyped),
    rw (not_listen name b e) listen,
  )
    where
      left : (a c : Bool) → a || c ≡ false → a ≡ false
      left a c h = ground (arith, h)

      right : (a c : Bool) → a || c ≡ false → c ≡ false
      right a c h = ground (arith, h)

  result_of-inv :
      (g : Given Settings) (s : Settings) (explicit : Text → Bool) (rest : List Text)
      → result_of g ≡ flags s explicit rest
      → (seen : List Text) × (g ≡ given s seen rest) × (was_set seen ≡ explicit)
  result_of-inv (given s' seen args) s explicit rest e = (seen, cc e, cc e)
  result_of-inv err_help s explicit rest e = absurd (cc e)
  result_of-inv err_usage s explicit rest e = absurd (cc e)

  parsed_keeps :
      (args rest : List Text) (s : Settings) (explicit : Text → Bool)
      → parse_flags (flag_set around) (defaults around) args ≡ flags s explicit rest
      → (explicit (codes "addr") ≡ false → s.addr ≡ around.addr)
        × (explicit (codes "host") ≡ false → s.host ≡ host_from_env around.host)
        × (explicit (codes "port") ≡ false → s.port ≡ port_from_env around.port)
        × (explicit (codes "listen") ≡ false)
  unfolding parse_flags defaults was_set
  parsed_keeps args rest s explicit e =
      let (seen, typed, same) =
        result_of-inv (parse (flag_set around) (defaults around) [] args) s explicit rest e in
      subst
        (λ x.
          (x (codes "addr") ≡ false → s.addr ≡ around.addr)
          × (x (codes "host") ≡ false → s.host ≡ host_from_env around.host)
          × (x (codes "port") ≡ false → s.port ≡ port_from_env around.port)
          × (x (codes "listen") ≡ false))
        same
        (parse_inv (flag_set around) Keeps keeps (defaults around) s args seen rest
          ((λ _. refl), (λ _. refl), (λ _. refl), refl) typed)

  -- The address text: typed, dropped for a typed host or port, or the environment's.
  abbrev pub addr_over : Settings → (Text → Bool) → Text
  addr_over s explicit =
      if explicit (codes "addr")
      then s.addr
      else if explicit (codes "host") || explicit (codes "port")
      then []
      else around.addr

  endpoint_arg_over :
      (s : Settings) (explicit : Text → Bool)
      → (explicit (codes "addr") ≡ false → s.addr ≡ around.addr)
      → explicit (codes "listen") ≡ false
      → endpoint_arg s.addr explicit (codes "host" ∷ codes "port" ∷ []) ≡ addr_over s explicit
  unfolding endpoint_arg
  endpoint_arg_over s explicit addr listen = elim (Bool-cases (explicit (codes "addr"))) [
    | inl typed ↦ rw typed refl
    | inr untyped ↦ rw (untyped, listen, addr untyped) (ground arith)
  ]

  or_default : {A : Type 0} (b : Bool) (x y : A) → (b ≡ false → x ≡ y) → x ≡ (if b then x else y)
  or_default true x y h = refl
  or_default false x y h = h refl

  -- The host and the port: typed, or the environment's.
  abbrev pub host_over : Settings → (Text → Bool) → Text
  host_over s explicit = if explicit (codes "host") then s.host else host_from_env around.host

  abbrev pub port_over : Settings → (Text → Bool) → ℤ
  port_over s explicit = if explicit (codes "port") then s.port else port_from_env around.port

  module _ (c : Client) {W : Type 0} (send : Endpoint → Transport W)
      (reachable : Endpoint → W → Bool) where
    -- The proxy dials by the settings in the order of their precedence, whatever its arguments are,
    -- if they parse: the address text that was typed, else the host and port if one of them was
    -- typed, else the address text of the environment, and the host and port of the environment where
    -- these are not typed. An empty address text stands for the host and the port.
    pub run_proxy_command_dials :
        (d : Disk) (w : W) (args rest : List Text) (s : Settings) (explicit : Text → Bool)
        → parse_flags (flag_set around) (defaults around) args ≡ flags s explicit rest
        → run_proxy_command c send reachable around d w args
          ≡ run_at c send reachable d w s rest (
              for_dial around.paths around.is_windows
                (addr_over s explicit)
                (host_over s explicit)
                (port_over s explicit))
    unfolding run_proxy_command
    run_proxy_command_dials d w args rest s explicit e =
        let (addr, host, port, listen) = parsed_keeps args rest s explicit e in
        ap (run_flags c send reachable around d w) e
        ∙ ap (run_at c send reachable d w s rest) (λ i.
          for_dial around.paths around.is_windows (endpoint_arg_over s explicit addr listen i)
            (or_default (explicit (codes "host")) s.host (host_from_env around.host) host i)
            (or_default (explicit (codes "port")) s.port (port_from_env around.port) port i))
