-- ===== src/Daemon/Server/Rotation.antt =====
-- Exchanging the refresh token for a new pair.
use op_forward.Auth.Token.{
  access_token_ttl, refresh_token_ttl, generate_access, generate_refresh, generate, is_valid,
}
use op_forward.Auth.Token.Hex.{IsRandom, generate-value_ne}
use op_forward.Http.{HttpRequest, IsJson}
use op_forward.Daemon.Server.{
  Server, Config, Occasion, extract_bearer, authenticate_access, handle_execute,
  handle_token_refresh, handle_health_op, handle_health, serve, is_foreign, refresh_with, rotate,
  token_response,
}
use op_forward.Daemon.Server.Access.{authenticate_access_iff}
use op_forward.Prelude.{
  ℕ, ◌+◌, ◌<◌, ◌≡◌, refl, sym, ap, ◌∙◌, ◌≢◌, ◌⊎◌, inl, inr, true, false, none, some, List, [], ◌∷◌,
  arith, ltb, Bool-cases, Text, codes, text_eq, text_eq_iff,
}

-- The request exchanges the refresh token: a POST to /token/refresh, not from another user, whose
-- bearer token is the server's refresh token, which has not expired.
abbrev pub IsExchange : Config → Server → ℕ → HttpRequest → Type 0
IsExchange cfg s now r =
    (is_foreign cfg r.peer_uid ≡ false)
    × (r.path ≡ codes "/token/refresh")
    × (r.method ≡ codes "POST")
    × (extract_bearer r.authorization ≢ [])
    × (extract_bearer r.authorization ≡ s.refresh_token.value)
    × (now < s.refresh_token.expires)

module _ (cfg : Config) (o : Occasion) (s : Server) where
  refresh_with_rotates :
      (bearer : Text)
      → bearer ≢ []
      → bearer ≡ s.refresh_token.value
      → o.now < s.refresh_token.expires
      → refresh_with cfg o s bearer ≡ rotate cfg o s
  unfolding is_valid
  refresh_with_rotates [] h e k = absurd (h refl)
  refresh_with_rotates (c ∷ bearer) h e k =
      ground (arith, text_eq_iff (c ∷ bearer) s.refresh_token.value)

  refresh_with_keeps :
      (bearer : Text)
      → ((bearer ≢ []) × (bearer ≡ s.refresh_token.value) × (o.now < s.refresh_token.expires))
        ⊎ ((refresh_with cfg o s bearer).server ≡ s)
  unfolding is_valid
  refresh_with_keeps [] = inr refl
  refresh_with_keeps (c ∷ bearer) = elim (Bool-cases (text_eq (c ∷ bearer) s.refresh_token.value)) [
    | inl e ↦ elim (Bool-cases (ltb o.now s.refresh_token.expires)) [
      | inl fresh ↦
          inl (λ e. cc, (text_eq_iff (c ∷ bearer) s.refresh_token.value).0 e, ground arith)
      | inr late ↦ inr (ground (arith, e, late))
    ]
    | inr other ↦ inr (ground (arith, other))
  ]

  health_op_keeps :
      (r : HttpRequest)
      → ((handle_health_op cfg o s r).server.access_token ≡ s.access_token)
        × ((handle_health_op cfg o s r).server.refresh_token ≡ s.refresh_token)
        × ((handle_health_op cfg o s r).server.disk ≡ s.disk)
  unfolding handle_health_op
  health_op_keeps r = (ground arith, ground arith, ground arith)

  run_decoded_keeps : (r : HttpRequest) → (handle_execute cfg o s r).server ≡ s
  unfolding handle_execute
  run_decoded_keeps r = ground arith

  -- An exchange is answered by the rotation, whatever else the request holds.
  pub serve_exchanges :
      (r : HttpRequest) → IsExchange cfg s o.now r → serve cfg o s r ≡ rotate cfg o s
  unfolding serve handle_token_refresh
  serve_exchanges r (local, path, method, bearer, same, fresh) =
      rw (local, path, method)
        (unfold text_eq in refresh_with_rotates (extract_bearer r.authorization) bearer same fresh)

  abbrev Keeps : Server → Type 0
  Keeps s' =
      (s'.access_token ≡ s.access_token) × (s'.refresh_token ≡ s.refresh_token) × (s'.disk ≡ s.disk)

  token_refresh_keeps :
      (r : HttpRequest)
      → ((r.method ≡ codes "POST")
          × (extract_bearer r.authorization ≢ [])
          × (extract_bearer r.authorization ≡ s.refresh_token.value)
          × (o.now < s.refresh_token.expires))
        ⊎ ((handle_token_refresh cfg o s r).server ≡ s)
  unfolding handle_token_refresh
  token_refresh_keeps r = elim (Bool-cases (text_eq r.method (codes "POST"))) [
    | inl post ↦ elim (refresh_with_keeps (extract_bearer r.authorization)) [
      | inl (bearer, same, fresh) ↦
          inl ((text_eq_iff r.method (codes "POST")).0 post, bearer, same, fresh)
      | inr kept ↦ inr (rw post kept)
    ]
    | inr other ↦ inr (rw other)
  ]

  serve_elsewhere :
      (r : HttpRequest)
      → ((is_foreign cfg r.peer_uid ≡ true)
          ⊎ ((text_eq r.path (codes "/token/refresh") ≡ false)
              ⊎ ((handle_token_refresh cfg o s r).server ≡ s)))
      → Keeps (serve cfg o s r).server
  unfolding serve handle_health
  serve_elsewhere r h =
      let (a, b, c) = health_op_keeps r in
      let e = run_decoded_keeps r in
      (ground (arith, a, e), ground (arith, b, e), ground (arith, c, e))

  -- The tokens and their files change by an exchange alone: every other request leaves both tokens
  -- and the disk as they are.
  pub serve_keeps :
      (r : HttpRequest)
      → IsExchange cfg s o.now r
        ⊎ (((serve cfg o s r).server.access_token ≡ s.access_token)
            × ((serve cfg o s r).server.refresh_token ≡ s.refresh_token)
            × ((serve cfg o s r).server.disk ≡ s.disk))
  serve_keeps r = elim (token_refresh_keeps r) [
    | inr kept ↦ inr (serve_elsewhere r (inr (inr kept)))
    | inl (post, bearer, same, fresh) ↦ elim (Bool-cases (is_foreign cfg r.peer_uid)) [
      | inl foreign ↦ inr (serve_elsewhere r (inl foreign))
      | inr local ↦ elim (Bool-cases (text_eq r.path (codes "/token/refresh"))) [
        | inl path ↦
            inl (
              local,
              (text_eq_iff r.path (codes "/token/refresh")).0 path,
              post,
              bearer,
              same,
              fresh,
            )
        | inr other ↦ inr (serve_elsewhere r (inr (inl other)))
      ]
    ]
  ]

  refresh_with_refuses :
      (bearer : Text)
      → ¬ ((bearer ≡ s.refresh_token.value) × (o.now < s.refresh_token.expires))
      → ((refresh_with cfg o s bearer).response.status ≡ 401)
        × ((refresh_with cfg o s bearer).server ≡ s)
        × ((refresh_with cfg o s bearer).launched ≡ none)
  unfolding is_valid
  refresh_with_refuses [] h = (refl, refl, refl)
  refresh_with_refuses (c ∷ bearer) h =
      elim (Bool-cases (text_eq (c ∷ bearer) s.refresh_token.value)) [
        | inr other ↦ rw other (refl, refl, refl)
        | inl same ↦ elim (Bool-cases (ltb o.now s.refresh_token.expires)) [
          | inr late ↦ rw (same, late) (refl, refl, refl)
          | inl fresh ↦
              absurd (h ((text_eq_iff (c ∷ bearer) s.refresh_token.value).0 same, ground arith))
        ]
      ]

  -- A request for an exchange that is none is refused, and changes nothing.
  pub serve_refuses :
      (r : HttpRequest)
      → is_foreign cfg r.peer_uid ≡ false
      → r.path ≡ codes "/token/refresh"
      → r.method ≡ codes "POST"
      → extract_bearer r.authorization ≢ []
      → ¬ IsExchange cfg s o.now r
      → ((serve cfg o s r).response.status ≡ 401)
        × ((serve cfg o s r).server ≡ s)
        × ((serve cfg o s r).launched ≡ none)
  unfolding serve handle_token_refresh
  serve_refuses r local path method bearer h =
      let refused =
        refresh_with_refuses (extract_bearer r.authorization)
          (λ x. h (local, path, method, bearer, x.0, x.1)) in
      rw (local, path, method) (unfold text_eq in refused)

  rotate_issues :
      IsJson cfg.json
      → ((rotate cfg o s).response.status ≡ 200)
        × (cfg.json.decode_tokens (rotate cfg o s).response.body
            ≡ some (
                token_response cfg
                  (rotate cfg o s).server.access_token
                  (rotate cfg o s).server.refresh_token))
        × ((rotate cfg o s).server.access_token ≡ generate_access o.access_random o.now)
        × ((rotate cfg o s).server.refresh_token ≡ generate_refresh o.refresh_random o.now)
        × ((later : ℕ) (r' : HttpRequest)
            → extract_bearer r'.authorization ≡ (rotate cfg o s).server.access_token.value
            → extract_bearer r'.authorization ≢ []
            → later < o.now + access_token_ttl
            → authenticate_access (rotate cfg o s).server later r' ≡ true)
  unfolding rotate
  rotate_issues json = (
    refl,
    json.decode-encode_tokens _,
    refl,
    refl,
    λ later r' same bearer fresh.
        (authenticate_access_iff _ later r').1 (bearer, same, unfold generate_access in fresh),
  )

  -- An exchange is answered with status 200 and the new pair, which the proxy's decoder reads as
  -- the two values that the server has from then on: an access token for an hour and a refresh
  -- token for 30 days. Every request that carries the new access token is authenticated until it
  -- expires.
  pub exchange_issues :
      (r : HttpRequest)
      → IsJson cfg.json
      → IsExchange cfg s o.now r
      → ((serve cfg o s r).response.status ≡ 200)
        × (cfg.json.decode_tokens (serve cfg o s r).response.body
            ≡ some (
                token_response cfg
                  (serve cfg o s r).server.access_token
                  (serve cfg o s r).server.refresh_token))
        × ((serve cfg o s r).server.access_token ≡ generate_access o.access_random o.now)
        × ((serve cfg o s r).server.refresh_token ≡ generate_refresh o.refresh_random o.now)
        × ((later : ℕ) (r' : HttpRequest)
            → extract_bearer r'.authorization ≡ (serve cfg o s r).server.access_token.value
            → extract_bearer r'.authorization ≢ []
            → later < o.now + access_token_ttl
            → authenticate_access (serve cfg o s r).server later r' ≡ true)
  exchange_issues r json x = rw (serve_exchanges r x) (rotate_issues json)

  -- A refresh token is good for one exchange: if the server's was generated from other random
  -- bytes than the new one, the same request is no exchange afterwards, at any time.
  pub IsExchange-once :
      (r : HttpRequest) (random : List ℕ) (then_now later ttl : ℕ)
      → IsExchange cfg s o.now r
      → s.refresh_token.value ≡ (generate random then_now ttl).value
      → IsRandom random
      → IsRandom o.refresh_random
      → random ≢ o.refresh_random
      → ¬ IsExchange cfg (serve cfg o s r).server later r
  IsExchange-once r random then_now later ttl x old before after fresh again =
      let e : (serve cfg o s r).server.refresh_token ≡ generate_refresh o.refresh_random o.now =
        ap (λ h. h.server.refresh_token) (serve_exchanges r x) ∙ (unfold rotate in refl) in
      generate-value_ne random o.refresh_random then_now o.now ttl refresh_token_ttl before after
        fresh
        (sym old ∙ (sym x.4 ∙ (again.4 ∙ (ap (λ t. t.value) e ∙ unfold generate_refresh in refl))))
