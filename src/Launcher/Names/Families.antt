-- ===== src/Launcher/Names/Families.antt =====
-- The bounds on the families of ECS task definitions.
use Prim.Native.String.{◌++◌}
use dagster_cloud.Prelude.{
  ◌+◌, ◌≤◌, String, ◌≡◌, refl, Bool, true, false, ◌&&◌, Option, arith, leb, if◌then◌else◌,
}
use dagster_cloud.Prelude.Slices.{len, take, len-append, len-take-le}
use dagster_cloud.Exec.{assertion_error, Result, ok, err}
use dagster_cloud.Launcher.Names.{text_of, asserting, get_task_definition_family}

-- the name of the family before it is sanitized
abbrev pub family : (sha1 : String → String) → String → Option String → String → String → String
family sha1 prefix organization_name deployment_name location_name =
    prefix
    ++ ("_"
        ++ (text_of organization_name
            ++ ("_"
                ++ (deployment_name
                    ++ ("_" ++ (take 55 location_name ++ ("_" ++ take 8 (sha1 location_name))))))))

len-one : (s : String) → len ("_" ++ s) ≡ 1 + len s
unfolding len
len-one s = len-append "_" s

truncated_lem :
    (hash location_name : String) → len (take 55 location_name ++ ("_" ++ take 8 hash)) ≤ 64
truncated_lem hash location_name = omega (
  arith,
  len-append (take 55 location_name) ("_" ++ take 8 hash),
  len-one (take 8 hash),
  len-take-le 55 location_name,
  len-take-le 8 hash,
)

family_lem :
    (prefix organization deployment rest : String)
    → len (prefix ++ ("_" ++ (organization ++ ("_" ++ (deployment ++ ("_" ++ rest))))))
      ≡ len prefix + len organization + len deployment + len rest + 3
family_lem prefix organization deployment rest = omega (
  arith,
  len-append prefix ("_" ++ (organization ++ ("_" ++ (deployment ++ ("_" ++ rest))))),
  len-one (organization ++ ("_" ++ (deployment ++ ("_" ++ rest)))),
  len-append organization ("_" ++ (deployment ++ ("_" ++ rest))),
  len-one (deployment ++ ("_" ++ rest)),
  len-append deployment ("_" ++ rest),
  len-one rest,
)

asserting_lem :
    (a b c d e : Bool) (result : Result String)
    → (a ≡ true → b ≡ true → c ≡ true → (d ≡ true) × (e ≡ true))
    → asserting a (asserting b (asserting c (asserting d (asserting e result))))
      ≡ (if a && b && c then result else err assertion_error)
asserting_lem false b c d e result h = refl
asserting_lem true false c d e result h = refl
asserting_lem true true false d e result h = refl
asserting_lem true true true d e result h = let (hd, he) = h refl refl refl in rw (hd, he) refl

-- The family is computed exactly if the name of the organization and of the deployment have at most
-- 64 characters and the prefix at most 32: the later assertions on the length of the truncated
-- name of the location and of the whole family never fail.
pub get_task_definition_family_lem :
    (sha1 sanitize_family : String → String) (prefix : String) (organization_name : Option String)
    (deployment_name location_name : String)
    → get_task_definition_family sha1 sanitize_family prefix organization_name deployment_name
        location_name
      ≡ (if leb (len (text_of organization_name)) 64
            && leb (len deployment_name) 64
            && leb (len prefix) 32
          then ok
              (sanitize_family (family sha1 prefix organization_name deployment_name location_name))
          else err assertion_error)
unfolding get_task_definition_family
get_task_definition_family_lem sha1 sanitize_family prefix organization_name deployment_name
      location_name =
    let truncated = take 55 location_name ++ ("_" ++ take 8 (sha1 location_name)) in
    let whole = family sha1 prefix organization_name deployment_name location_name in
    let bound = truncated_lem (sha1 location_name) location_name in
    let sum = family_lem prefix (text_of organization_name) deployment_name truncated in
    asserting_lem (leb (len (text_of organization_name)) 64) (leb (len deployment_name) 64)
      (leb (len prefix) 32) (leb (len truncated) 64) (leb (len whole) 255)
      (ok (sanitize_family whole))
      (λ a b c. (ground (arith, bound), ground (arith, a, b, c, bound, sum)))
