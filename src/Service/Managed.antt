-- ===== src/Service/Managed.antt =====
-- What the commands of cmd/service.go leave behind.
use op_forward.Files.{Disk, written}
use op_forward.Endpoint.Address.{Parsed, ParseError, parsed, refused, Endpoint}
use op_forward.Endpoint.Config.{for_listen, port_from_env}
use op_forward.Service.{
  Site, Ran, plist_path, load_args, bootstrap_args, load_service, job, service_install,
  service_uninstall, dispatch_service,
}
use op_forward.Prelude.{
  ◌≡◌, refl, ◌⊎◌, inl, inr, true, false, none, some, List, [], ◌∷◌, arith, Option-cases, Text,
  codes, text_eq, text_eq_refl, ◌↔◌,
}

Parsed-cases :
    (x : Parsed) → ((e : ParseError) × (x ≡ refused e)) ⊎ ((e : Endpoint) × (x ≡ parsed e))
Parsed-cases (refused e) = inl (e, refl)
Parsed-cases (parsed e) = inr (e, refl)

-- No file but the job definition differs.
abbrev pub OnlyPlist : Site → Text → Disk → Ran → Type 0
OnlyPlist site home d r = (q : Text) → text_eq (plist_path site home) q ≡ false → r.disk q ≡ d q

-- A job definition is in place, of the program whose links are resolved and of the configured
-- endpoint, and launchd has accepted it.
abbrev pub IsServed : Site → Text → Ran → Type 0
IsServed site home r =
    (program : Text) × (bin : Text) × (e : Endpoint) × (site.executable ≡ some program)
    × (site.eval_symlinks program ≡ some bin)
    × (for_listen site.paths false site.listen (port_from_env site.port) ≡ parsed e)
    × (site.mkdir_ok ≡ true)
    × (site.write ≡ written)
    × ((site.launchctl (load_args (plist_path site home)) ≡ true)
        ⊎ (site.launchctl (bootstrap_args site (plist_path site home)) ≡ true))
    × (r.disk (plist_path site home) ≡ some (job site home bin e))

service_install-OnlyPlist :
    (site : Site) (home : Text) (d : Disk)
    → site.home ≡ some home
    → OnlyPlist site home d (service_install site d)
unfolding service_install load_service
service_install-OnlyPlist site home d at q apart = ground (arith, at, apart)

service_uninstall-OnlyPlist :
    (site : Site) (home : Text) (d : Disk)
    → site.home ≡ some home
    → OnlyPlist site home d (service_uninstall site d)
unfolding service_uninstall
service_uninstall-OnlyPlist site home d at q apart = ground (arith, at, apart)

service_install-IsServed :
    (site : Site) (home : Text) (d : Disk)
    → site.home ≡ some home
    → (service_install site d).error ≡ none
    → IsServed site home (service_install site d)
unfolding service_install load_service
service_install-IsServed site home d at done = elim (Option-cases site.executable) [
  | inl e ↦ absurd (ground (arith, at, e, done))
  | inr (program, found) ↦ elim (Option-cases (site.eval_symlinks program)) [
    | inl e ↦ absurd (ground (arith, at, found, e, done))
    | inr (bin, resolved) ↦
        elim (Parsed-cases (for_listen site.paths false site.listen (port_from_env site.port))) [
          | inl (e, bad) ↦ absurd (ground (arith, at, found, resolved, bad, done))
          | inr (e, chosen) ↦
              let same = text_eq_refl (plist_path site home) in
              (
                program,
                bin,
                e,
                found,
                resolved,
                chosen,
                ground (arith, at, found, resolved, chosen, done),
                ground (arith, at, found, resolved, chosen, done),
                ground (arith, at, found, resolved, chosen, done),
                ground (arith, at, found, resolved, chosen, done, same),
              )
        ]
  ]
]

-- With a home directory, `serviceInstall` reports no error exactly if the program's path is found and
-- its links resolve, the endpoint parses, the directory and the job definition are written, and
-- launchd accepts it by `load` or by `bootstrap`; the file then names that program and endpoint.
pub service_install-IsServed_iff :
    (site : Site) (home : Text) (d : Disk)
    → site.home ≡ some home
    → ((service_install site d).error ≡ none) ↔ IsServed site home (service_install site d)
unfolding service_install load_service
service_install-IsServed_iff site home d at = (
  service_install-IsServed site home d at,
  λ (program, bin, e, found, resolved, chosen, made, writes, loads, there).
      ground (arith, at, found, resolved, chosen, made, writes, loads),
)

-- Whatever the arguments, `dispatchService` changes no file but the job definition in the home
-- directory; off macOS it changes none and runs no command.
dispatch_service-OnlyPlist :
    (site : Site) (goos : Text) (args : List Text) (home : Text) (d : Disk)
    → site.home ≡ some home
    → let r = dispatch_service site goos args d in
      OnlyPlist site home d r
      × (text_eq goos (codes "darwin") ≡ false → (r.disk ≡ d) × (r.commands ≡ []))
unfolding dispatch_service
dispatch_service-OnlyPlist site goos [] home d at = ((λ q apart. refl), λ other. (refl, refl))
dispatch_service-OnlyPlist site goos (a ∷ []) home d at = ((λ q apart. refl), λ other. (refl, refl))
dispatch_service-OnlyPlist site goos (a ∷ b ∷ []) home d at =
    ((λ q apart. refl), λ other. (refl, refl))
dispatch_service-OnlyPlist site goos (a ∷ b ∷ name ∷ rest) home d at = (
  (λ q apart.
      let installed = service_install-OnlyPlist site home d at q apart in
      let uninstalled = service_uninstall-OnlyPlist site home d at q apart in
      ground (arith, installed, uninstalled)),
  λ other. (ground (arith, other), ground (arith, other)),
)
