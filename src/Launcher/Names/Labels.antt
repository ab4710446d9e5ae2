-- ===== src/Launcher/Names/Labels.antt =====
-- Valid names of resources.
use Prim.Native.Char.{Char}
use Prim.Native.String.{◌++◌}
use dagster_cloud.Prelude.{
  ℕ, suc, ◌+◌, ◌-◌, ◌≤◌, String, ◌≡◌, refl, ◌∙◌, Bool, true, false, not, ◌||◌, some, arith, leb,
  is_blank, if◌then◌else◌, Bool-cases, inl, inr,
}
use dagster_cloud.Prelude.Slices.{
  len, take, take_difference, all_chars, only, lstrip, rstrip, strip, begins, ends, len-append,
  len-take-le, len-take, all_chars-append, all_chars-take, all_chars-only, all_chars-lstrip,
  all_chars-rstrip, begins-lstrip, begins-rstrip, is_blank-append, ends-append, begins-append,
}
use dagster_cloud.Exec.{ok}
use dagster_cloud.Launcher.Names.{
  unique_resource_name, is_lower, is_digit, is_dash, is_name, sanitize_k8s_resource_name,
  unique_k8s_resource_name,
}

-- A lower-case letter or a digit.
abbrev pub is_alphanumeric : Char → Bool
is_alphanumeric c = is_lower c || is_digit c

-- At most `limit` of the characters [a-z0-9-], the last of them no dash.
pub record IsName (limit : ℕ) (name : String) : Type 0 where
  pub length : len name ≤ limit
  pub chars : all_chars is_name name ≡ true
  pub last : ends is_alphanumeric name ≡ true

-- A name that begins with a letter: a DNS label.
pub record IsDnsLabel (name : String) : Type 0 where
  pub valid : IsName 63 name
  pub first : begins is_lower name ≡ true

-- The digits are from [0-9a-z], and at least six, as those of a uuid.
pub record IsHex (hex : String) : Type 0 where
  pub enough : 6 ≤ len hex
  pub chars : all_chars is_alphanumeric hex ≡ true

alphanumeric-name : (s : String) → all_chars is_alphanumeric s ≡ true → all_chars is_name s ≡ true
unfolding all_chars
alphanumeric-name String.[] h = refl
alphanumeric-name (String.◌∷◌ c s) h = ground (arith, h, alphanumeric-name s (ground (arith, h)))

all_chars-ends :
    (p : Char → Bool) (s : String) → all_chars p s ≡ true → is_blank s ≡ false → ends p s ≡ true
unfolding all_chars ends
all_chars-ends p String.[] h b = ground (arith, b)
all_chars-ends p (String.◌∷◌ c s) h b = elim (Bool-cases (is_blank s)) [
  | inl one ↦ ground (arith, h, one)
  | inr more ↦ ground (arith, h, more, all_chars-ends p s (ground (arith, h)) more)
]

blank_lem : (s : String) (n : ℕ) → len s ≡ n + 1 → is_blank s ≡ false
unfolding len
blank_lem String.[] n h = absurd (omega (arith, h))
blank_lem (String.◌∷◌ c s) n h = refl

hash-IsName : (hex : String) → IsHex hex → IsName 6 (take 6 hex)
hash-IsName hex h = record {
  length = len-take-le 6 hex;
  chars = alphanumeric-name _ (all_chars-take is_alphanumeric 6 hex h.chars);
  last =
      all_chars-ends is_alphanumeric (take 6 hex) (all_chars-take is_alphanumeric 6 hex h.chars)
        (blank_lem (take 6 hex) 5 (len-take 6 hex h.enough));
}

suffixed-IsName :
    (name hash : String) (limit : ℕ)
    → 7 ≤ limit
    → all_chars is_name name ≡ true
    → len name ≤ limit - 7
    → IsName 6 hash
    → IsName limit (name ++ ("-" ++ hash))
unfolding len all_chars ends
suffixed-IsName name hash limit enough chars short h = record {
  length =
      omega (arith, enough, short, h.length, len-append name ("-" ++ hash), len-append "-" hash);
  chars = ground (
    arith,
    chars,
    h.chars,
    all_chars-append is_name name ("-" ++ hash),
    all_chars-append is_name "-" hash,
  );
  last =
      let filled : is_blank hash ≡ false = ends-filled hash h.last in
      ends-append is_alphanumeric name ("-" ++ hash) (is_blank-append "-" hash filled)
      ∙ ends-append is_alphanumeric "-" hash filled
      ∙ h.last;
}
  where
    ends-filled : (s : String) → ends is_alphanumeric s ≡ true → is_blank s ≡ false
    ends-filled String.[] e = cc
    ends-filled (String.◌∷◌ c s) e = refl

widen-IsName : (m n : ℕ) (name : String) → m ≤ n → IsName m name → IsName n name
widen-IsName m n name le h = record {
  length = omega (arith, le, h.length);
  chars = h.chars;
  last = h.last;
}

-- what the sanitized name is cut to, and the name made of it
abbrev cut : ℕ → (String → String) → String → String → String
cut length_limit sanitize_fn deployment_name location_name =
    take_difference length_limit 7 (sanitize_fn (location_name ++ ("-" ++ deployment_name)))

abbrev suffixed : String → String → String
suffixed name hash = if is_blank name then hash else name ++ ("-" ++ hash)

cut_lem :
    (n : ℕ) (s : String)
    → 7 ≤ n
    → all_chars is_name s ≡ true
    → (all_chars is_name (take_difference n 7 s) ≡ true) × (len (take_difference n 7 s) ≤ n - 7)
unfolding take_difference
cut_lem n s enough h =
    let test : leb 7 n ≡ true = ground (arith, enough) in
    rw test (all_chars-take is_name (n - 7) s h, len-take-le (n - 7) s)

module _ (hex deployment_name location_name : String) (limit : ℕ)
    (sanitize_fn : String → String) where
  -- If the limit is at least seven and the sanitized name has the characters [a-z0-9-] alone, the
  -- assertion holds, and the unique name is valid.
  pub unique_resource_name-IsName :
      7 ≤ limit
      → IsHex hex
      → all_chars is_name (sanitize_fn (location_name ++ ("-" ++ deployment_name))) ≡ true
      → (unique_resource_name hex deployment_name location_name limit (some sanitize_fn)
          ≡ ok (suffixed (cut limit sanitize_fn deployment_name location_name) (take 6 hex)))
        × IsName limit (suffixed (cut limit sanitize_fn deployment_name location_name) (take 6 hex))
  unfolding unique_resource_name
  unique_resource_name-IsName enough hash chars =
      let name = cut limit sanitize_fn deployment_name location_name in
      let (allowed, short) =
        cut_lem limit (sanitize_fn (location_name ++ ("-" ++ deployment_name))) enough chars in
      let valid : IsName limit (suffixed name (take 6 hex)) = elim (Bool-cases (is_blank name)) [
        | inl blank ↦
            rw blank (widen-IsName 6 limit _ (omega (arith, enough)) (hash-IsName hex hash))
        | inr filled ↦
            rw filled
              (suffixed-IsName name (take 6 hex) limit enough allowed short (hash-IsName hex hash))
      ] in
      let test : leb (len (suffixed name (take 6 hex))) limit ≡ true =
        ground (arith, valid.length) in
      (rw test refl, valid)

lstrip-begins : (s : String) → begins is_lower s ≡ true → lstrip is_dash s ≡ s
unfolding lstrip
lstrip-begins String.[] h = refl
lstrip-begins (String.◌∷◌ c s) h = let kept : is_dash c ≡ false = ground (arith, h) in rw kept refl

begins-filled : (s : String) → begins is_lower s ≡ true → is_blank s ≡ false
begins-filled String.[] h = cc
begins-filled (String.◌∷◌ c s) h = refl

begins-take : (p : Char → Bool) (n : ℕ) (s : String) → begins p (take (suc n) s) ≡ begins p s
unfolding take
begins-take p n String.[] = refl
begins-take p n (String.◌∷◌ c s) = refl

blank-eq : (s : String) → is_blank s ≡ true → s ≡ ""
blank-eq String.[] h = refl
blank-eq (String.◌∷◌ c s) h = cc

or_k8s : String → String
or_k8s s = if is_blank s then "k8s" else s

-- a text that is blank or begins with a letter keeps its first letter when it is stripped
stripped_lem :
    (s : String)
    → (is_blank s || begins is_lower s) ≡ true
    → begins is_lower (or_k8s (strip is_dash s)) ≡ true
unfolding strip lstrip rstrip or_k8s
stripped_lem String.[] h = refl
stripped_lem (String.◌∷◌ c s) h =
    let first : begins is_lower (String.◌∷◌ c s) ≡ true = h in
    rw (lstrip-begins (String.◌∷◌ c s) first)
      (elim (Bool-cases (is_blank (rstrip is_dash (String.◌∷◌ c s)))) [
        | inl blank ↦ rw blank refl
        | inr filled ↦
            rw filled
              (ground (arith, filled, first, begins-rstrip is_lower is_dash (String.◌∷◌ c s)))
      ])

stripped-chars :
    (s : String) → all_chars is_name s ≡ true → all_chars is_name (or_k8s (strip is_dash s)) ≡ true
unfolding strip or_k8s all_chars
stripped-chars s h =
    let kept = all_chars-rstrip is_name is_dash _ (all_chars-lstrip is_name is_dash s h) in
    elim (Bool-cases (is_blank (strip is_dash s))) [
      | inl blank ↦ rw blank refl
      | inr filled ↦ rw filled kept
    ]

sanitize_lem :
    (lower : String → String) (name : String)
    → (begins is_lower (sanitize_k8s_resource_name lower name) ≡ true)
      × (all_chars is_name (sanitize_k8s_resource_name lower name) ≡ true)
unfolding sanitize_k8s_resource_name or_k8s
sanitize_lem lower name = (
  stripped_lem (lstrip (λ c. not (is_lower c)) (only is_name (lower name)))
      (begins-lstrip is_lower (only is_name (lower name))),
  stripped-chars (lstrip (λ c. not (is_lower c)) (only is_name (lower name)))
      (all_chars-lstrip is_name (λ c. not (is_lower c)) _ (all_chars-only is_name (lower name))),
)

first_lem :
    (s hash : String)
    → begins is_lower s ≡ true
    → begins is_lower (suffixed (take_difference 63 7 s) hash) ≡ true
unfolding take_difference
first_lem s hash h =
    let begun : begins is_lower (take 56 s) ≡ true = begins-take is_lower 55 s ∙ h in
    rw (begins-filled (take 56 s) begun)
      (begins-append is_lower (take 56 s) ("-" ++ hash) (begins-filled (take 56 s) begun) ∙ begun)

-- For every deployment and location, whatever `str.lower` does, the unique name of a Kubernetes
-- resource is made without a failing assertion, and is a DNS label.
pub unique_k8s_resource_name-IsDnsLabel :
    (lower : String → String) (hex deployment_name location_name : String)
    → IsHex hex
    → (name : String) × (unique_k8s_resource_name lower hex deployment_name location_name ≡ ok name)
      × IsDnsLabel name
unfolding unique_k8s_resource_name
unique_k8s_resource_name-IsDnsLabel lower hex deployment_name location_name h =
    let full = location_name ++ ("-" ++ deployment_name) in
    let (first, chars) = sanitize_lem lower full in
    let (made, valid) =
      unique_resource_name-IsName hex deployment_name location_name 63
        (sanitize_k8s_resource_name lower) (omega arith) h chars in
    (
      _,
      made,
      record {
        valid = valid;
        first = first_lem (sanitize_k8s_resource_name lower full) (take 6 hex) first;
      },
    )
