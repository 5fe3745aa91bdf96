-- ===== src/Osv/Cache/Bounds.antt =====
-- The cache is bounded, and clean verdicts leave it before malicious ones.
use artea.Base.{
  ℕ, zero, suc, ◌+◌, ◌-◌, ◌≤◌, ◌<◌, Text, ◌≡◌, ◌≢◌, refl, ◌∙◌, Bool, true, false, ◌||◌, Option,
  none, some, [], ◌∷◌, eq_text, eq_pair, ◌==◌, leb, if◌then◌else◌, contains, arith, Bool-cases, inl,
  inr, ◌⊎◌,
}
use artea.Base.Dict.{IsDict, get, keys, put, get-put, put-IsDict}
use artea.Base.Lists.{length, keep, take}
use artea.Base.Sort.{sort_by, IsSorted, length-sort_by, sort_by-IsSorted}
use artea.Osv.{Verdict}
use artea.Osv.Cache.{
  CachedVerdict, VerdictCache, Key, Entries, is_expired, evict_leb, sweep, evict, trim, stored, set,
}
use artea.Osv.Cache.Evict.{
  remove_all-IsDict, length-remove_all, sort_by-IsDict, take-IsDict, keys-All_contained,
  contains-keys-take, contains-keys-sort, length-keys-take, get-remove_all, get-sort_by,
}

pub sweep-IsDict : (c : VerdictCache) (now : ℕ) (d : Entries) → IsDict d → IsDict (sweep c now d)
unfolding sweep
sweep-IsDict c now d u = remove_all-IsDict (keys (keep (λ kv. is_expired c kv.1 now) d)) d u

length-evict : (n : ℕ) (d : Entries) → IsDict d → n ≤ length d → length (evict n d) + n ≡ length d
unfolding evict
length-evict n d u le =
    let s = sort_by-IsDict evict_leb d u in
    let l = length-remove_all (keys (take n (sort_by evict_leb d))) d u (take-IsDict n _ s) (
      keys-All_contained (take n (sort_by evict_leb d)) d (λ k m.
        rw (contains-keys-sort evict_leb k d) at
          (contains-keys-take n k (sort_by evict_leb d) m))) in
    rw (length-keys-take n (sort_by evict_leb d) (rw (length-sort_by evict_leb d) le)) at l

trim-le :
    (c : VerdictCache) (now : ℕ) (d : Entries) → IsDict d → length (trim c now d) ≤ c.max_entries
unfolding trim
trim-le c now d u = elim (Bool-cases (leb (length d) c.max_entries)) [
  | inl h ↦ rw h (ground arith)
  | inr h ↦ rw h (
      ground (
        arith,
        length-evict (length (sweep c now d) - c.max_entries) (sweep c now d)
            (sweep-IsDict c now d u) (omega arith),
      ))
]

trim-IsDict : (c : VerdictCache) (now : ℕ) (d : Entries) → IsDict d → IsDict (trim c now d)
unfolding trim evict
trim-IsDict c now d u = elim (Bool-cases (leb (length d) c.max_entries)) [
  | inl h ↦ rw h u
  | inr h ↦ rw h (
      remove_all-IsDict
        (keys (take (length (sweep c now d) - c.max_entries) (sort_by evict_leb (sweep c now d))))
        (sweep c now d) (sweep-IsDict c now d u))
]

-- After `set` a cache with one verdict for each key holds `max_entries` verdicts at most, one for
-- each key.
pub set-bounded :
    (c : VerdictCache) (now : ℕ) (key : Key) (verdict : Verdict)
    → IsDict c.entries
    → (length (set c now key verdict).entries ≤ c.max_entries)
      × IsDict (set c now key verdict).entries
unfolding set stored
set-bounded c now key verdict u =
    let p = put-IsDict key (record { stored_at = now; verdict = verdict }) c.entries u in
    (trim-le c now _ p, trim-IsDict c now _ p)

evict_leb_total : (a b : Key × CachedVerdict) → (evict_leb a b ≡ true) ⊎ (evict_leb b a ≡ true)
unfolding evict_leb
evict_leb_total (k, a) (j, b) = ground arith

evict_leb_trans :
    (a b c : Key × CachedVerdict)
    → evict_leb a b ≡ true
    → evict_leb b c ≡ true
    → evict_leb a c ≡ true
unfolding evict_leb
evict_leb_trans (k, a) (j, b) (i, c) h g = ground arith

or_false : (a b : Bool) → (a || b) ≡ false → (a ≡ false) × (b ≡ false)
or_false a b h = ground arith

some-injective : {a b : CachedVerdict} → ◌≡◌ {A = Option CachedVerdict} (some a) (some b) → a ≡ b
some-injective h = cc

-- The first of a sorted dictionary is at most each other entry.
first_le :
    (p : Key × CachedVerdict) (d : Entries) (j : Key) {w : CachedVerdict}
    → IsSorted evict_leb (p ∷ d)
    → get j d ≡ some w
    → evict_leb p (j, w) ≡ true
unfolding get
first_le p [] j s h = absurd (cc h)
first_le p ((i, v) ∷ d) j {w} s h = elim (Bool-cases (i == j)) [
  | inl same ↦
      let e : i ≡ j = (eq_pair.beq_iff i j).0 same in
      let g : v ≡ w = some-injective (rw same at h) in rw (← e, ← g) s.0
  | inr ne ↦ evict_leb_trans p (i, v) (j, w) s.0 (first_le (i, v) d j s.1 (rw ne at h))
]

tail-IsSorted :
    (p : Key × CachedVerdict) (d : Entries) → IsSorted evict_leb (p ∷ d) → IsSorted evict_leb d
tail-IsSorted p [] s = tt
tail-IsSorted p (q ∷ d) s = s.1

taken_le :
    (n : ℕ) (d : Entries) (k j : Key) {e w : CachedVerdict}
    → IsDict d
    → IsSorted evict_leb d
    → get k d ≡ some e
    → get j d ≡ some w
    → contains k (keys (take n d)) ≡ true
    → contains j (keys (take n d)) ≡ false
    → evict_leb (k, e) (j, w) ≡ true
unfolding get contains
taken_le zero d k j u s hk hj m o = absurd (cc m)
taken_le (suc n) [] k j u s hk hj m o = absurd (cc m)
taken_le (suc n) ((i, v) ∷ d) k j {e} {w} u s hk hj m o =
    let (oi, o) = or_false (i == j) _ o in
    let hj : get j d ≡ some w = rw oi at hj in
    elim (Bool-cases (i == k)) [
      | inl same ↦
          let p : i ≡ k = (eq_pair.beq_iff i k).0 same in
          let g : v ≡ e = some-injective (rw same at hk) in rw (← p, ← g) (first_le (i, v) d j s hj)
      | inr ne ↦ taken_le n d k j u.1 (tail-IsSorted (i, v) d s) (rw ne at hk) hj (rw ne at m) o
    ]

kept_entry :
    (b : Bool) (o : Option CachedVerdict) {w : CachedVerdict}
    → (if b then none else o) ≡ some w
    → (b ≡ false) × (o ≡ some w)
kept_entry true o h = absurd (cc h)
kept_entry false o h = (refl, h)

dropped_entry : (b : Bool) (e : CachedVerdict) → (if b then none else some e) ≡ none → b ≡ true
dropped_entry true e h = refl
dropped_entry false e h = absurd (cc h)

blocked_above :
    (k : Key) (e : CachedVerdict) (j : Key) (w : CachedVerdict)
    → e.verdict.blocked ≡ true
    → evict_leb (k, e) (j, w) ≡ true
    → w.verdict.blocked ≡ true
unfolding evict_leb
blocked_above k e j w h le = ground arith

-- What the sweep leaves was there.
unswept :
    (c : VerdictCache) (now : ℕ) (d : Entries) (k : Key) {e : CachedVerdict}
    → IsDict d
    → get k (sweep c now d) ≡ some e
    → get k d ≢ none
unfolding sweep
unswept c now d k u had absent =
    let r =
      rw (get-remove_all (keys (keep (λ kv. is_expired c kv.1 now) d)) d k u, absent) at had in
    never (contains k (keys (keep (λ kv. is_expired c kv.1 now) d))) r
  where
    never : (b : Bool) {e : CachedVerdict} → (if b then none else none) ≡ some e → ⊥
    never true h = cc
    never false h = cc

evict-keeps_malicious :
    (n : ℕ) (d : Entries) (k : Key) {e : CachedVerdict}
    → IsDict d
    → get k d ≡ some e
    → e.verdict.blocked ≡ true
    → get k (evict n d) ≡ none
    → (j : Key) {w : CachedVerdict} → get j (evict n d) ≡ some w
    → w.verdict.blocked ≡ true
unfolding evict
evict-keeps_malicious n d k {e} u had bad gone j {w} stays =
    let s = sort_by-IsDict evict_leb d u in
    let gone = rw (get-remove_all (keys (take n (sort_by evict_leb d))) d k u, had) at gone in
    let stays = rw (get-remove_all (keys (take n (sort_by evict_leb d))) d j u) at stays in
    let (o, stays) =
      kept_entry (contains j (keys (take n (sort_by evict_leb d)))) (get j d) stays in
    let m = dropped_entry (contains k (keys (take n (sort_by evict_leb d)))) e gone in
    blocked_above k e j w bad (
      taken_le n (sort_by evict_leb d) k j s (sort_by-IsSorted evict_leb evict_leb_total d)
        (get-sort_by evict_leb k d u ∙ had) (get-sort_by evict_leb j d u ∙ stays) m o)

trim-keeps_malicious :
    (c : VerdictCache) (now : ℕ) (d : Entries) (k : Key) {e : CachedVerdict}
    → IsDict d
    → get k (sweep c now d) ≡ some e
    → e.verdict.blocked ≡ true
    → get k (trim c now d) ≡ none
    → (j : Key) {w : CachedVerdict} → get j (trim c now d) ≡ some w
    → w.verdict.blocked ≡ true
unfolding trim
trim-keeps_malicious c now d k {e} u had bad gone j {w} stays =
    elim (Bool-cases (leb (length d) c.max_entries)) [
      | inl h ↦ absurd (unswept c now d k u had (rw h at gone))
      | inr h ↦
          evict-keeps_malicious (length (sweep c now d) - c.max_entries) (sweep c now d) k
            (sweep-IsDict c now d u) had bad (rw h at gone) j (rw h at stays)
    ]

unexpired :
    (c : VerdictCache) (e : CachedVerdict) (now : ℕ)
    → e.verdict.blocked ≡ true
    → now < c.positive_ttl + e.stored_at
    → is_expired c e now ≡ false
unfolding is_expired
unexpired c e now bad young = ground arith

contains-keys-keep :
    (p : Key × CachedVerdict → Bool) (d : Entries) (k : Key)
    → contains k (keys d) ≡ false
    → contains k (keys (keep p d)) ≡ false
unfolding keep contains
contains-keys-keep p [] k h = refl
contains-keys-keep p ((j, w) ∷ d) k h = ground (arith, contains-keys-keep p d k)

unkept :
    (p : Key × CachedVerdict → Bool) (d : Entries) (k : Key) {e : CachedVerdict}
    → IsDict d
    → get k d ≡ some e
    → p (k, e) ≡ false
    → contains k (keys (keep p d)) ≡ false
unfolding keep contains get
unkept p [] k u had out = refl
unkept p ((j, w) ∷ d) k {e} u had out = elim (Bool-cases (j == k)) [
  | inl t ↦
      let same : j ≡ k = ((eq_pair {A = Text} {B = Text × Text}).beq_iff j k).0 t in
      let w_e : w ≡ e = ground (arith, t, had) in
      let gone : contains k (keys d) ≡ false = rw (← same) u.0 in
      let dropped : p (j, w) ≡ false = rw (same, w_e) out in
      rw dropped (contains-keys-keep p d k gone)
  | inr t ↦ ground (arith, t, unkept p d k u.1 (ground (arith, t, had)) out)
]

-- The sweep leaves what has not expired.
swept :
    (c : VerdictCache) (now : ℕ) (d : Entries) (k : Key) {e : CachedVerdict}
    → IsDict d
    → get k d ≡ some e
    → is_expired c e now ≡ false
    → get k (sweep c now d) ≡ some e
unfolding sweep
swept c now d k u had young =
    get-remove_all (keys (keep (λ kv. is_expired c kv.1 now) d)) d k u
    ∙ rw (unkept (λ kv. is_expired c kv.1 now) d k u had young) had

-- A clean verdict leaves a cache with one verdict for each key before a malicious one that has not
-- expired: where, after `set` at a time at which a malicious verdict, stored before or by this call, is
-- younger than the time to live of such verdicts, that verdict is gone, each verdict that stays is
-- malicious.
pub set-keeps_malicious :
    (c : VerdictCache) (now : ℕ) (key : Key) (verdict : Verdict) (k : Key) {entry : CachedVerdict}
    → IsDict c.entries
    → (if key == k then some (record { stored_at = now; verdict = verdict }) else get k c.entries)
      ≡ some entry
    → entry.verdict.blocked ≡ true
    → now < c.positive_ttl + entry.stored_at
    → get k (set c now key verdict).entries ≡ none
    → (j : Key) {kept : CachedVerdict} → get j (set c now key verdict).entries ≡ some kept
    → kept.verdict.blocked ≡ true
unfolding set stored
set-keeps_malicious c now key verdict k {entry} u had bad young gone j stays =
    let new : CachedVerdict = record { stored_at = now; verdict = verdict } in
    let d = put key new c.entries in
    let unique : IsDict d = put-IsDict key new c.entries u in
    trim-keeps_malicious c now d k unique
      (swept c now d k unique (get-put key k new c.entries ∙ had) (unexpired c entry now bad young))
      bad gone j stays
