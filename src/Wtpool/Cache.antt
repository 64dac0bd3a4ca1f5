-- ===== src/Wtpool/Cache.antt =====
-- wtpool/src/cache.rs: the cache with a time to live. A monotonic clock's reading is an argument of
-- each call, in nanoseconds; `get_or_compute` reads it once to look and once to insert.
use mcp_tools.Prelude.{
  ℕ, ◌+◌, ◌-◌, ◌≤◌, ◌<◌, ◌≡◌, ◌≢◌, refl, Bool, true, false, Option, none, some, List, [], ◌∷◌,
  arith, ltb, if◌then◌else◌, Str, str_eq, str_eq_iff, str_eq_refl, Bool-cases, Option-cases, inl,
  inr,
}
use mcp_tools.Prelude.Result.{Result, ok, err}

pub record Entry {ℓ} (V : Type ℓ) : Type ℓ where
  pub inserted_at : ℕ
  pub value : V

abbrev pub default_ttl : ℕ
default_ttl = 60_000_000_000

pub record TtlCache {ℓ} (V : Type ℓ) : Type ℓ where
  pub entries : List (Str × Entry V)
  pub ttl : ℕ

module _ {V : Type 0} where
  abbrev pub with_ttl : ℕ → TtlCache V
  with_ttl ttl = record { entries = []; ttl = ttl }

  -- The hash map as an association list.
  unfoldable pub lookup : Str → List (Str × Entry V) → Option (Entry V)
  lookup k [] = none
  lookup k ((j, e) ∷ m) = if str_eq j k then some e else lookup k m

  unfoldable pub insert : Str → Entry V → List (Str × Entry V) → List (Str × Entry V)
  insert k e [] = (k, e) ∷ []
  insert k e ((j, d) ∷ m) = if str_eq j k then (k, e) ∷ m else (j, d) ∷ insert k e m

  -- An entry is fresh up to and including its time to live.
  abbrev fresh : ℕ → ℕ → Option (Entry V) → Option V
  fresh ttl now none = none
  fresh ttl now (some e) = if ltb ttl (now - e.inserted_at) then none else some e.value

  unfoldable pub peek : TtlCache V → Str → ℕ → Option V
  unfolding lookup
  peek c key now = fresh c.ttl now (lookup key c.entries)

  -- The new cache, the answer, and whether `f` was called.
  abbrev store : TtlCache V → Str → ℕ → Result V Str → TtlCache V × Result V Str
  store c key later (err e) = (c, err e)
  store c key later (ok v) = (
    record c { entries = insert key (record { inserted_at = later; value = v }) c.entries },
    ok v,
  )

  abbrev answer :
      TtlCache V → Str → ℕ → Result V Str → Option V → (TtlCache V × Result V Str) × Bool
  answer c key later computed (some v) = ((c, ok v), false)
  answer c key later computed none = (store c key later computed, true)

  unfoldable pub get_or_compute :
      TtlCache V → Str → Result V Str → ℕ → ℕ → (TtlCache V × Result V Str) × Bool
  get_or_compute c key computed now later = answer c key later computed (peek c key now)

  lookup-insert :
      (k j : Str) (e : Entry V) (m : List (Str × Entry V))
      → lookup j (insert k e m) ≡ (if str_eq k j then some e else lookup j m)
  unfolding lookup insert
  lookup-insert k j e [] = refl
  lookup-insert k j e ((i, d) ∷ m) =
      ground (arith, str_eq_iff k j, str_eq_iff i k, str_eq_iff i j, lookup-insert k j e m)

  abbrev inserted : TtlCache V → Str → V → ℕ → TtlCache V
  inserted c key v later = record c {
    entries = insert key (record { inserted_at = later; value = v }) c.entries;
  }

  get_or_compute-miss :
      (c : TtlCache V) (key : Str) (v : V) (now later : ℕ)
      → peek c key now ≡ none
      → get_or_compute c key (ok v) now later ≡ ((inserted c key v later, ok v), true)
  unfolding get_or_compute
  get_or_compute-miss c key v now later miss = rw miss

  peek-inserted :
      (c : TtlCache V) (key j : Str) (v : V) (later t : ℕ)
      → peek (inserted c key v later) j t
        ≡ (if str_eq key j then (if ltb c.ttl (t - later) then none else some v) else peek c j t)
  unfolding peek
  peek-inserted c key j v later t =
      let found = lookup-insert key j (record { inserted_at = later; value = v }) c.entries in
      elim (Bool-cases (str_eq key j)) [
        | inl same ↦ rw same (rw (found, same))
        | inr other ↦ rw other (rw (found, other))
      ]

  answered :
      (c : TtlCache V) (key : Str) (v : V) (computed : Result V Str) (t : ℕ)
      → peek c key t ≡ some v
      → get_or_compute c key computed t t ≡ ((c, ok v), false)
  unfolding get_or_compute
  answered c key v computed t hit = rw hit

  called :
      (c : TtlCache V) (key : Str) (computed : Result V Str) (t : ℕ)
      → peek c key t ≡ none
      → (get_or_compute c key computed t t).1 ≡ true
  unfolding get_or_compute
  called c key computed t miss = rw miss

  stored :
      (c : TtlCache V) (key j : Str) (computed : Result V Str) (later t : ℕ)
      → key ≢ j
      → peek (store c key later computed).0 j t ≡ peek c j t
  stored c key j (err e) later t ne = refl
  stored c key j (ok v) later t ne =
      let differs : str_eq key j ≡ false = ground (arith, str_eq_iff key j) in
      rw differs at (peek-inserted c key j v later t)

  -- A value that was computed on a miss is the answer for its time to live, with no second
  -- computation and no change of the cache.
  pub get_or_compute-hit :
      (c : TtlCache V) (key : Str) (v : V) (computed : Result V Str) (now later t : ℕ)
      → peek c key now ≡ none
      → later ≤ t
      → t ≤ later + c.ttl
      → let after = (get_or_compute c key (ok v) now later).0.0 in
        get_or_compute after key computed t t ≡ ((after, ok v), false)
  get_or_compute-hit c key v computed now later t miss order young =
      let after = inserted c key v later in
      let seen = rw (str_eq_refl key) at (peek-inserted c key key v later t) in
      let kept : ltb c.ttl (t - later) ≡ false = ground arith in
      rw (get_or_compute-miss c key v now later miss)
        (answered after key v computed t (rw kept at seen))

  -- After its time to live a value is computed again.
  pub get_or_compute-expired :
      (c : TtlCache V) (key : Str) (v : V) (computed : Result V Str) (now later t : ℕ)
      → peek c key now ≡ none
      → later + c.ttl < t
      → let after = (get_or_compute c key (ok v) now later).0.0 in
        (get_or_compute after key computed t t).1 ≡ true
  get_or_compute-expired c key v computed now later t miss old =
      let after = inserted c key v later in
      let seen = rw (str_eq_refl key) at (peek-inserted c key key v later t) in
      let lost : ltb c.ttl (t - later) ≡ true = ground arith in
      rw (get_or_compute-miss c key v now later miss)
        (called after key computed t (rw lost at seen))

  -- A call for one key, whatever its closure gives, never changes what another key finds.
  pub get_or_compute-others :
      (c : TtlCache V) (key j : Str) (computed : Result V Str) (now later t : ℕ)
      → key ≢ j
      → peek (get_or_compute c key computed now later).0.0 j t ≡ peek c j t
  unfolding get_or_compute
  get_or_compute-others c key j computed now later t ne = elim (Option-cases (peek c key now)) [
    | inr (v, hit) ↦ rw hit refl
    | inl miss ↦ rw miss (stored c key j computed later t ne)
  ]
