-- ===== src/Unsubscribe/Executor/Guarded.antt =====
-- Which requests `execute_unsubscribe` of backend/app/services/unsubscribe/executor.py makes.
use briefed.Base.{
  ℕ, ◌+◌, ◌*◌, ◌/◌, ◌%◌, ◌^◌, ◌≤◌, ◌<◌, ◌≡◌, ◌≢◌, ◌⊎◌, inl, inr, refl, List, [], ◌∷◌, true, false,
  Option, none, some, map, arith, All, Bool-cases, Option-cases, ltb, ◌==◌,
}
use briefed.Base.Result.{ok, Result-cases}
use briefed.Rubric.Texts.{Text, lower, is_empty}
use briefed.Unsubscribe.Executor.{
  Address, v4, v6, Network, check_parts, ipv4_mapped, is_cgnat, is_special, is_public_v4,
  is_public_address, parse_infos, not_empty, resolve_addresses, check_addresses, check_host,
  is_allowed_scheme, validate_unsubscribe_url, is_ascii,
}

-- 100.64.0.0 and 100.128.0.0
abbrev cgnat_start : ℕ
cgnat_start = ((100 * 256 + 64) * 256) * 256

abbrev cgnat_end : ℕ
cgnat_end = ((100 * 256 + 128) * 256) * 256

module _ (net : Network) where
  abbrev NotSpecial : Address → Type 0
  NotSpecial a =
      (net.is_private a ≡ false)
      × (net.is_loopback a ≡ false)
      × (net.is_link_local a ≡ false)
      × (net.is_reserved a ≡ false)
      × (net.is_multicast a ≡ false)
      × (net.is_unspecified a ≡ false)

  abbrev IsPublicV4 : ℕ → Type 0
  IsPublicV4 n = NotSpecial (v4 n) × ((n < cgnat_start) ⊎ (cgnat_end ≤ n))

  -- An address that is public; one of IPv6 that wraps one of IPv4, `::ffff:a.b.c.d`, is public
  -- where that one is.
  abbrev pub IsPublic : Address → Type 0
  IsPublic (v4 n) = IsPublicV4 n
  IsPublic (v6 n) =
      ((m : ℕ) × (m < 2 ^ 32) × (n ≡ 0xffff * 2 ^ 32 + m) × IsPublicV4 m)
      ⊎ ((n / 2 ^ 32 ≢ 0xffff) × NotSpecial (v6 n))

  special_not : (a : Address) → is_special net a ≡ false → NotSpecial a
  unfolding is_special
  special_not a h =
      (ground arith, ground arith, ground arith, ground arith, ground arith, ground arith)

  is_public_v4-IsPublicV4 : (n : ℕ) → is_public_v4 net n ≡ true → IsPublicV4 n
  unfolding is_public_v4 is_cgnat
  is_public_v4-IsPublicV4 n h = elim (Bool-cases (is_special net (v4 n))) [
    | inl special ↦ absurd (ground arith)
    | inr plain ↦ (
      special_not (v4 n) plain,
      elim (Bool-cases (ltb n cgnat_start)) [
        | inl below ↦ inl (ground arith)
        | inr above ↦ inr (ground arith)
      ],
    )
  ]

  is_public_address-IsPublic : (a : Address) → is_public_address net a ≡ true → IsPublic a
  unfolding is_public_address ipv4_mapped
  is_public_address-IsPublic (v4 n) h = is_public_v4-IsPublicV4 n h
  is_public_address-IsPublic (v6 n) h = elim (Bool-cases (n / 2 ^ 32 == 0xffff)) [
    | inl mapped ↦
        inl (
          n % 2 ^ 32,
          omega arith,
          ground arith,
          is_public_v4-IsPublicV4 (n % 2 ^ 32) (ground arith),
        )
    | inr other ↦ inr (λ e. ground arith, special_not (v6 n) (ground arith))
  ]

  check_addresses-IsPublic :
      (addresses : List Address) → check_addresses net addresses ≡ ok tt → All IsPublic addresses
  unfolding check_addresses
  check_addresses-IsPublic [] h = tt
  check_addresses-IsPublic (a ∷ addresses) h = elim (Bool-cases (is_public_address net a)) [
    | inl public ↦
        (is_public_address-IsPublic a public, check_addresses-IsPublic addresses (ground arith))
    | inr special ↦ absurd (ground arith)
  ]

  -- What the host stands for at a step: the address that it spells, or those of the name service.
  abbrev pub Resolves : ℕ → Text → List Address → Type 0
  Resolves step host addresses =
      ((a : Address) × (net.ip_address host ≡ some a) × (addresses ≡ a ∷ []))
      ⊎ ((net.ip_address host ≡ none) × (net.getaddrinfo step host ≡ ok (map some addresses)))

  parse_infos-map :
      (infos : List (Option Address)) (addresses : List Address)
      → parse_infos net infos ≡ ok addresses
      → infos ≡ map some addresses
  unfolding parse_infos
  parse_infos-map [] addresses h = ground arith
  parse_infos-map (none ∷ infos) addresses h = ground arith
  parse_infos-map (some a ∷ infos) addresses h = elim (Result-cases (parse_infos net infos)) [
    | inl (rest, e) ↦ ground (arith, parse_infos-map infos rest)
    | inr (e, h') ↦ ground arith
  ]

  resolve_addresses-Resolves :
      (step : ℕ) (host : Text) (addresses : List Address)
      → resolve_addresses net step host ≡ ok addresses
      → Resolves step host addresses × (addresses ≢ [])
  unfolding resolve_addresses
  resolve_addresses-Resolves step host addresses h = elim (Option-cases (net.ip_address host)) [
    | inr (a, literal) ↦ (inl (a, literal, ground arith), λ e. ground arith)
    | inl name ↦ elim (Result-cases (net.getaddrinfo step host)) [
      | inr (e, nothing) ↦ absurd (ground arith)
      | inl (infos, found) ↦ elim (Result-cases (parse_infos net infos)) [
        | inr (e, unparsed) ↦ absurd (ground arith)
        | inl ([], parsed) ↦ absurd (ground arith)
        | inl (a ∷ rest, parsed) ↦
            (inr (name, ground (arith, parse_infos-map infos (a ∷ rest))), λ e. ground arith)
      ]
    ]
  ]

  -- A URL with an allowed scheme and a host all of whose addresses, at this step, are public.
  pub record IsContactable (step : ℕ) (url : Text) : Type 0 where
    pub scheme : Text
    pub host : Text
    pub addresses : List Address
    pub named : is_empty host ≡ false
    pub ascii : is_ascii host ≡ true
    pub splits : net.urlsplit url ≡ some (scheme, some host)
    pub allowed : is_allowed_scheme net (lower scheme) ≡ true
    pub resolves : Resolves step host addresses
    pub filled : addresses ≢ []
    pub public : All IsPublic addresses

  abbrev HostIsPublic : ℕ → Text → Type 0
  HostIsPublic step host =
      (addresses : List Address) × (is_empty host ≡ false)
      × (is_ascii host ≡ true)
      × Resolves step host addresses
      × (addresses ≢ [])
      × All IsPublic addresses

  check_host-HostIsPublic :
      (step : ℕ) (host : Text) → check_host net step host ≡ ok tt → HostIsPublic step host
  unfolding check_host
  check_host-HostIsPublic step host h = elim (Result-cases (resolve_addresses net step host)) [
    | inr (e, refused) ↦ absurd (ground arith)
    | inl (addresses, resolved) ↦
        let (found, filled) = resolve_addresses-Resolves step host addresses resolved in
        (
          addresses,
          ground arith,
          ground arith,
          found,
          filled,
          check_addresses-IsPublic addresses (ground arith),
        )
  ]

  pub validate_unsubscribe_url-IsContactable :
      (step : ℕ) (url : Text)
      → validate_unsubscribe_url net step url ≡ ok tt
      → IsContactable step url
  unfolding validate_unsubscribe_url
  validate_unsubscribe_url-IsContactable step url h = elim (Option-cases (net.urlsplit url)) [
    | inl nothing ↦ absurd (ground arith)
    | inr ((scheme, none), parts) ↦ absurd (ground arith)
    | inr ((scheme, some host), parts) ↦
        let checked : check_host net step host ≡ ok tt = ground arith in
        let (addresses, named, ascii, found, filled, public) =
          check_host-HostIsPublic step host checked in
        record {
          scheme = scheme;
          host = host;
          addresses = addresses;
          named = named;
          ascii = ascii;
          splits = parts;
          allowed = ground arith;
          resolves = found;
          filled = filled;
          public = public;
        }
  ]

  -- The other way: what the guard lets through.
  IsPublicV4-is_public_v4 : (n : ℕ) → IsPublicV4 n → is_public_v4 net n ≡ true
  unfolding is_public_v4 is_cgnat is_special
  IsPublicV4-is_public_v4 n (plain, range) = ground arith

  IsPublic-is_public_address : (a : Address) → IsPublic a → is_public_address net a ≡ true
  unfolding is_public_address ipv4_mapped is_special
  IsPublic-is_public_address (v4 n) h = IsPublicV4-is_public_v4 n h
  IsPublic-is_public_address (v6 n) (inl (m, small, e, public)) =
      let low : n % 2 ^ 32 ≡ m = omega arith in
      let high : n / 2 ^ 32 ≡ 0xffff = omega arith in
      ground (arith, IsPublicV4-is_public_v4 m public)
  IsPublic-is_public_address (v6 n) (inr (unmapped, plain)) = ground arith

  IsPublic-check_addresses :
      (addresses : List Address) → All IsPublic addresses → check_addresses net addresses ≡ ok tt
  unfolding check_addresses
  IsPublic-check_addresses [] h = refl
  IsPublic-check_addresses (a ∷ addresses) h =
      ground (arith, IsPublic-is_public_address a h.0, IsPublic-check_addresses addresses h.1)

  parse_infos-some :
      (addresses : List Address) → parse_infos net (map some addresses) ≡ ok addresses
  unfolding parse_infos
  parse_infos-some [] = refl
  parse_infos-some (a ∷ addresses) = ground (arith, parse_infos-some addresses)

  not_empty-filled :
      (addresses : List Address) → addresses ≢ [] → not_empty net (ok addresses) ≡ ok addresses
  not_empty-filled [] filled = absurd (filled refl)
  not_empty-filled (a ∷ addresses) filled = refl

  Resolves-resolve_addresses :
      (step : ℕ) (host : Text) (addresses : List Address)
      → Resolves step host addresses
      → addresses ≢ []
      → resolve_addresses net step host ≡ ok addresses
  unfolding resolve_addresses
  Resolves-resolve_addresses step host addresses (inl (a, literal, e)) filled = ground arith
  Resolves-resolve_addresses step host addresses (inr (name, infos)) filled =
      ground (arith, parse_infos-some addresses, not_empty-filled addresses filled)

  pub IsContactable-validate_unsubscribe_url :
      (step : ℕ) (url : Text)
      → IsContactable step url
      → validate_unsubscribe_url net step url ≡ ok tt
  unfolding validate_unsubscribe_url check_parts check_host
  IsContactable-validate_unsubscribe_url step url c = ground (
    arith,
    Resolves-resolve_addresses step c.host c.addresses c.resolves c.filled,
    IsPublic-check_addresses c.addresses c.public,
    c.splits,
    c.allowed,
    c.named,
    c.ascii,
  )
