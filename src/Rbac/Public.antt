-- ===== src/Rbac/Public.antt =====
-- The public endpoints of services/rbac_matrix.py are compared literally.
use auth_claw.Prelude.{
  Bool, List, Text, [], all, and-split, any, ap₂, arith, codes, not, one_of, refl, text_eq, true,
  upper, ◌++◌, ◌==◌, ◌||◌, ◌∷◌, ◌≡◌,
}
use auth_claw.Rbac.Glob.{eat, fnmatch}
use auth_claw.Rbac.Paths.{is_public_endpoint, normalize_path_template}
use auth_claw.Rbac.Roles.{public_paths}

abbrev has_no_star : Text → Bool
has_no_star p = all (λ c. not (c == 42)) p

-- A pattern without `*` is compared for equality.
fnmatch-literal : (p name : Text) → has_no_star p ≡ true → fnmatch p name ≡ text_eq name p
unfolding fnmatch eat text_eq
fnmatch-literal [] [] h = refl
fnmatch-literal [] (c ∷ s) h = refl
fnmatch-literal (d ∷ p) [] h = ground (arith, h)
fnmatch-literal (d ∷ p) (c ∷ s) h =
    let (e, k) = and-split (not (d == 42)) (has_no_star p) h in
    let ih = fnmatch-literal p s k in ground (arith, ih, e)

any-literal :
    (ps : List Text) (name : Text)
    → all has_no_star ps ≡ true
    → any (λ p. fnmatch p name) ps ≡ one_of name ps
unfolding one_of
any-literal [] name h = refl
any-literal (p ∷ ps) name h =
    let (e, k) = and-split (has_no_star p) (all has_no_star ps) h in
    ap₂ ◌||◌ (fnmatch-literal p name e) (any-literal ps name k)

-- An endpoint is public exactly when the method in upper case, a space and the normalised path are
-- an entry of PUBLIC_PATHS, character by character.
pub is_public_endpoint-literal :
    (method path : Text)
    → is_public_endpoint method path
      ≡ one_of (upper method ++ codes " " ++ normalize_path_template path) public_paths
unfolding is_public_endpoint public_paths codes
is_public_endpoint-literal method path =
    any-literal public_paths (upper method ++ codes " " ++ normalize_path_template path) refl
