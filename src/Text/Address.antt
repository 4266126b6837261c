-- ===== src/Text/Address.antt =====
-- `ipaddress.ip_address` of CPython on a `str`: an IPv4 address in dotted form, or an IPv6 address
-- with at most one `::`, an IPv4 tail and a scope.
use native.Mathlib.Decide.{ℕ_discrete}
use python_fleet_telemetry.Prelude.{
  ℕ, zero, suc, ◌+◌, ◌-◌, ◌*◌, ◌/◌, ◌%◌, ◌≡◌, refl, ◌&&◌, ◌||◌, Option, none, some, List, [], ◌∷◌,
  Str, ◌==◌, Eq, str_eq, nat_eq, leb, ltb, contains, codes, if◌then◌else◌,
}
use python_fleet_telemetry.Prelude.Lists.{length, take, drop, last}

pub data Address : Type 0 where
  v4 : ℕ → Address
  v6 : ℕ → Option Str → Address

Address-discrete : Discrete Address
unfolding ℕ_discrete
Address-discrete = hlevel ℕ_discrete

instance unfoldable pub address_eq : Eq Address
unfolding Address-discrete ℕ_discrete
address_eq = record { dec = Address-discrete }

module _ {A B : Type 0} where
  -- `f` of each, if none fails
  abbrev pub each : (A → Option B) → List A → Option (List B)
  each f [] = some []
  each f (a ∷ as_) = elim (f a) [
    | none ↦ none
    | some b ↦ elim (each f as_) [ none ↦ none | some bs ↦ some (b ∷ bs) ]
  ]

abbrev pub and_then {ℓ} : {A B : Type ℓ} → Option A → (A → Option B) → Option B
and_then none f = none
and_then (some a) f = f a

prefix : ℕ → List Str → List Str
prefix c [] = (c ∷ []) ∷ []
prefix c (p ∷ ps) = (c ∷ p) ∷ ps

-- `s.split(sep)` of one character
unfoldable pub split : ℕ → Str → List Str
unfolding prefix
split sep [] = [] ∷ []
split sep (c ∷ s) = let rest = split sep s in if c == sep then [] ∷ rest else prefix c rest

-- the value of a digit in base 10 or 16
abbrev pub decimal_digit : ℕ → Option ℕ
decimal_digit c = if leb b'0' c && leb c b'9' then some (c - b'0') else none

abbrev pub hex_digit : ℕ → Option ℕ
hex_digit c =
    if leb b'0' c && leb c b'9'
    then some (c - b'0')
    else if leb b'a' c && leb c b'f'
    then some (c - b'a' + 10)
    else if leb b'A' c && leb c b'F'
    then some (c - b'A' + 10)
    else none

-- The number of given digits, the first one the highest.
unfoldable pub number : ℕ → ℕ → List ℕ → ℕ
number base acc [] = acc
number base acc (d ∷ ds) = number base (acc * base + d) ds

-- `_parse_octet`
unfoldable pub octet : Str → Option ℕ
unfolding number
octet s = and_then (each decimal_digit s) λ ds.
    if s == []
    then none
    else if ltb 3 (length s)
    then none
    else if ltb 1 (length s) && (take 1 s == codes "0")
    then none
    else if ltb 255 (number 10 0 ds)
    then none
    else some (number 10 0 ds)

-- `IPv4Address(s)` as a number
unfoldable pub ipv4 : Str → Option ℕ
unfolding octet number split
ipv4 s =
    and_then (each octet (split b'.' s))
      λ os. if length os == 4 then some (number 256 0 os) else none

-- `_parse_hextet`
unfoldable pub hextet : Str → Option ℕ
unfolding number
hextet s =
    and_then (each hex_digit s)
      λ ds. if s == [] then none else if ltb 4 (length s) then none else some (number 16 0 ds)

hex_code : ℕ → ℕ
hex_code d = if ltb d 10 then b'0' + d else b'a' + (d - 10)

-- a group of 16 bits in hexadecimal
group : ℕ → Str
group n =
    hex_code (n / 4096)
    ∷ hex_code ((n / 256) % 16)
    ∷ hex_code ((n / 16) % 16)
    ∷ hex_code (n % 16)
    ∷ []

-- An IPv4 tail in the last part becomes two groups.
unfoldable pub with_ipv4_tail : List Str → Option (List Str)
unfolding group hex_code
with_ipv4_tail [] = some []
with_ipv4_tail (p ∷ []) =
    if contains p b'.'
    then and_then (ipv4 p) (λ n. some (group (n / 65536) ∷ group (n % 65536) ∷ []))
    else some (p ∷ [])
with_ipv4_tail (p ∷ q ∷ ps) = and_then (with_ipv4_tail (q ∷ ps)) (λ r. some (p ∷ r))

-- The indices of the empty parts but for a last one; `i` is the index of the first.
unfoldable pub empty_parts : ℕ → List Str → List ℕ
empty_parts i [] = []
empty_parts i (p ∷ []) = []
empty_parts i (p ∷ q ∷ ps) =
    let rest = empty_parts (i + 1) (q ∷ ps) in if p == [] then i ∷ rest else rest

-- eight groups
unfoldable pub full_groups : List Str → Option ℕ
unfolding hextet number
full_groups parts =
    and_then (each hextet parts) λ gs. if length gs == 8 then some (number 65536 0 gs) else none

shifted : ℕ → ℕ → ℕ
shifted zero n = n
shifted (suc k) n = shifted k (n * 65536)

-- The groups before and after a `::`, which stands for at least one group.
unfoldable pub joined_groups : List Str → List Str → Option ℕ
unfolding hextet number shifted
joined_groups before after = and_then (each hextet before) λ hi. and_then (each hextet after) λ lo.
    if ltb (length hi + length lo) 8
    then some (number 65536 (shifted (8 - (length hi + length lo)) (number 65536 0 hi)) lo)
    else none

-- An empty first or last part stands only beside the `::`.
before_skip : ℕ → Str → List Str → Option (List Str)
before_skip k first parts =
    if first == [] then (if k == 1 then some [] else none) else some (take k parts)

after_skip : Str → List Str → Option (List Str)
after_skip final rest =
    if final == [] then (if length rest == 1 then some [] else none) else some rest

-- `_ip_int_from_string`
unfoldable pub ipv6_parts : List Str → Option ℕ
unfolding before_skip after_skip empty_parts full_groups joined_groups
ipv6_parts [] = none
ipv6_parts (first ∷ rest) =
    if ltb (length (first ∷ rest)) 3 || ltb 9 (length (first ∷ rest))
    then none
    else elim (empty_parts 1 rest) [
      | [] ↦ full_groups (first ∷ rest)
      | k ∷ [] ↦ and_then (before_skip k first (first ∷ rest)) λ before.
          and_then (after_skip (last first rest) (drop (k + 1) (first ∷ rest)))
            λ after. joined_groups before after
      | k ∷ _ ∷ _ ↦ none
    ]

-- The parts before the tail is read are at least three.
unfoldable pub ipv6_number : Str → Option ℕ
unfolding ipv6_parts with_ipv4_tail
ipv6_number s =
    if ltb (length (split b':' s)) 3
    then none
    else and_then (with_ipv4_tail (split b':' s)) ipv6_parts

-- `_split_scope_id` and `IPv6Address(s)`
unfoldable pub scoped : List Str → Option Address
scoped [] = none
scoped (s ∷ []) = and_then (ipv6_number s) (λ n. some (v6 n none))
scoped (s ∷ scope ∷ []) =
    if scope == [] then none else and_then (ipv6_number s) (λ n. some (v6 n (some scope)))
scoped _ = none

-- `ip_address`, `none` for its ValueError
unfoldable pub ip_address : Str → Option Address
unfolding scoped
ip_address s =
    if contains s b'/'
    then none
    else elim (ipv4 s) [ some n ↦ some (v4 n) | none ↦ scoped (split b'%' s) ]

-- Addresses of either kind, and text that is none.
examples :
    (ip_address (codes "10.0.0.255") ≡ some (v4 167772415))
    × (ip_address (codes "10.0.0.256") ≡ none)
    × (ip_address (codes "010.0.0.1") ≡ none)
    × (ip_address (codes "::1") ≡ some (v6 1 none))
    × (ip_address (codes "::") ≡ some (v6 0 none))
    × (ip_address (codes "1::2:3") ≡ some (v6 (shifted 7 1 + 131075) none))
    × (ip_address (codes "::ffff:1.2.3.4") ≡ some (v6 281470698652420 none))
    × (ip_address (codes "fe80::1%eth0") ≡ some (v6 (shifted 7 65152 + 1) (some (codes "eth0"))))
    × (ip_address (codes "1::2::3") ≡ none)
    × (ip_address (codes "1:2:3:4:5:6:7:") ≡ none)
    × (ip_address (codes ":1:2:3:4:5:6:7") ≡ none)
    × (ip_address (codes "tesla.example") ≡ none)
unfolding ip_address nat_eq str_eq ipv4 ipv6_number shifted
examples = (refl, refl, refl, refl, refl, refl, refl, refl, refl, refl, refl, refl)
