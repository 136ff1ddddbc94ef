-- ===== src/External/Redis/Memory.antt =====
-- A Redis in memory: a list of keys with values, in which the newest entry of a key counts, and
-- whose counters overflow past 2. It shows that the laws of Redis can hold, and runs the examples.
use saas_chassis.Prelude.{
  ℕ, String, ◌≡◌, refl, ap, sym, ◌∙◌, ◌⊎◌, inl, inr, true, not, Option, none, some, List, [], ◌∷◌,
  map, Result, ok, err, error, includes, parse_int, ◌==◌, if◌then◌else◌, keep, arith, eq_iff,
  eq_refl, Bool-cases, Option-cases, parse_digits,
}
use saas_chassis.External.Redis.{Redis, IsRedis, IsAvailable, Scanned, last, more}

abbrev value_of : List (String × String) → String → Option String
value_of [] j = none
value_of ((k, v) ∷ s) j = if k == j then some v else value_of s j

abbrev key_of : String × String → String
key_of e = e.0

abbrev count_up :
    String → Option String → List (String × String) → Result ℕ × List (String × String)
count_up k none s = (ok 1, (k, "1") ∷ s)
count_up k (some v) s =
    if v == "1" then (ok 2, (k, "2") ∷ s) else (err (error "increment would overflow"), s)

abbrev pub memory : Redis
memory = record {
  Store = List (String × String);
  value = value_of;
  get = λ k s. ok (value_of s k);
  setex = λ k ttl v s. (ok tt, (k, v) ∷ s);
  del = λ ks s. (ok tt, keep (λ e. not (includes ks (key_of e))) s);
  incr = λ k s. count_up k (value_of s k) s;
  expire = λ k ttl s. (ok tt, s);
  scan = λ cursor pattern s. ok (0, map key_of s);
  matches = λ pattern k. true;
}

value_of-keep :
    (ks : List String) (s : List (String × String)) (j : String)
    → value_of (keep (λ e. not (includes ks (key_of e))) s) j
      ≡ (if includes ks j then none else value_of s j)
value_of-keep ks [] j = elim (Bool-cases (includes ks j)) [ inl e ↦ rw e refl | inr e ↦ rw e refl ]
value_of-keep ks ((k, v) ∷ s) j = elim (Bool-cases (k == j)) [
  | inl e ↦
      let same : k ≡ j = (eq_iff k j).0 e in
      ground (arith, value_of-keep ks s j, ap (includes ks) same)
  | inr e ↦ ground (arith, value_of-keep ks s j)
]

includes-keys :
    (s : List (String × String)) (k v : String)
    → value_of s k ≡ some v
    → includes (map key_of s) k ≡ true
includes-keys [] k v h = cc
includes-keys ((j, u) ∷ s) k v h = elim (Bool-cases (j == k)) [
  | inl e ↦ rw e refl
  | inr e ↦ rw e (includes-keys s k v (rw e at h))
]

scanned-keys :
    (pattern : String) (s : List (String × String)) (cursor : ℕ) (keys : List String)
    → Scanned memory pattern s cursor keys
    → keys ≡ map key_of s
scanned-keys pattern s cursor keys (last _ _ q) = ground arith
scanned-keys pattern s cursor keys (more _ next batch rest q e d) = ground arith

one_is_one : parse_int "1" ≡ some 1
unfolding parse_int parse_digits
one_is_one = refl

two_is_two : parse_int "2" ≡ some 2
unfolding parse_int parse_digits
two_is_two = refl

count_up-cases :
    (k : String) (s s' : List (String × String)) (n : ℕ)
    → count_up k (value_of s k) s ≡ (ok n, s')
    → ((value_of s k ≡ none) × (n ≡ 1) × (s' ≡ (k, "1") ∷ s))
      ⊎ ((value_of s k ≡ some "1") × (n ≡ 2) × (s' ≡ (k, "2") ∷ s))
count_up-cases k s s' n h = elim (Option-cases (value_of s k)) [
  | inl e ↦ inl (e, ground arith, ground arith)
  | inr (v, e) ↦ elim (Bool-cases (v == "1")) [
    | inl b ↦
        let one : v ≡ "1" = (eq_iff v "1").0 b in inr (e ∙ ap some one, ground arith, ground arith)
    | inr b ↦ ground arith
  ]
]

-- The Redis in memory obeys the laws.
pub memory-IsRedis : IsRedis memory
memory-IsRedis = record {
  get_value = λ k s o h. cc;
  setex_value = λ k v ttl s s' j h. let e : (k, v) ∷ s ≡ s' = cc in rw (← e) refl;
  del_value = λ ks s s' j h.
      let e : keep (λ e. not (includes ks (key_of e))) s ≡ s' = cc in
      rw (← e) (value_of-keep ks s j);
  incr_counts = λ k s s' n h. elim (count_up-cases k s s' n h) [
    | inl (a, b, c) ↦ inl (a, b)
    | inr (a, b, c) ↦ inr ("1", 1, a, one_is_one, b)
  ];
  incr_value = λ k s s' n h. elim (count_up-cases k s s' n h) [
    | inl (a, b, c) ↦
        ("1", ap (λ z. value_of z k) c ∙ rw (eq_refl k) refl, one_is_one ∙ ap some (sym b))
    | inr (a, b, c) ↦
        ("2", ap (λ z. value_of z k) c ∙ rw (eq_refl k) refl, two_is_two ∙ ap some (sym b))
  ];
  incr_other = λ k s s' n j h ne. elim (count_up-cases k s s' n h) [
    | inl (a, b, c) ↦ ap (λ z. value_of z j) c ∙ rw ne refl
    | inr (a, b, c) ↦ ap (λ z. value_of z j) c ∙ rw ne refl
  ];
  expire_value = λ k ttl s s' j h. let e : s ≡ s' = cc in ap (λ z. value_of z j) (sym e);
  scan_all =
      λ pattern s keys k v d h m. rw (scanned-keys pattern s 0 keys d) (includes-keys s k v h);
}

pub memory-IsAvailable : IsAvailable memory
memory-IsAvailable = record {
  got = λ k s. (value_of s k, refl);
  set = λ k v ttl s. refl;
  deleted = λ ks s. refl;
}
