-- ===== src/Auth/Tokens/Spent.antt =====
-- Links that `consumeVerificationToken` of src/auth/token.service.ts has consumed, through the changes
-- of the rows.
use edu_gear_back_end.Common.{
  ◌==◌, if◌then◌else◌, ==_iff, Bool-cases, is_none, count, ℕ, ◌≤◌, ◌≡◌, refl, ap, inl, inr, Bool,
  true, false, not, ◌&&◌, some, List, [], ◌∷◌, map, arith,
}
use edu_gear_back_end.Common.Members.{count-map, count-le}
use edu_gear_back_end.Auth.Store.{VerificationToken}
use edu_gear_back_end.Auth.Tokens.{consume_id, find_link}

abbrev pub has_hash : ℕ → VerificationToken → Bool
has_hash hash t = t.token_hash == hash

abbrev pub is_spent : ℕ → VerificationToken → Bool
is_spent hash t = has_hash hash t && not (is_none t.consumed_at)

-- Consuming links of any kind keeps the consumed ones.
pub spent-map :
    (hash now : ℕ) (test : VerificationToken → Bool) (ts : List VerificationToken)
    → count (is_spent hash) ts
      ≤ count (is_spent hash) (
          map
            (λ (t : VerificationToken). if test t then record t { consumed_at = some now } else t)
            ts)
spent-map hash now test ts = omega (
  arith,
  count-map (λ (t : VerificationToken). if test t then record t { consumed_at = some now } else t)
      (is_spent hash) ts,
  count-le (is_spent hash)
      (λ t. is_spent hash (if test t then record t { consumed_at = some now } else t))
      (λ t e. by_test t (test t) e) ts,
)
  where
    by_test :
        (t : VerificationToken) (b : Bool)
        → is_spent hash t ≡ true
        → is_spent hash (if b then record t { consumed_at = some now } else t) ≡ true
    by_test t true e = ground arith
    by_test t false e = e

pub count-new-le : {A : Type 0} (p : A → Bool) (x : A) (xs : List A) → count p xs ≤ count p (x ∷ xs)
count-new-le p x xs = ground arith

-- The only link with a hash is the consumed one.
pub find_link-spent :
    (hash : ℕ) (ts : List VerificationToken)
    → 1 ≤ count (is_spent hash) ts
    → count (has_hash hash) ts ≤ 1
    → (link : VerificationToken) × (find_link hash ts ≡ some link)
      × (is_none link.consumed_at ≡ false)
find_link-spent hash [] some_spent unique = absurd (omega (arith, some_spent))
find_link-spent hash (t ∷ ts) some_spent unique = elim (Bool-cases (t.token_hash == hash)) [
  | inl hit ↦
      let rest : count (is_spent hash) ts ≤ count (has_hash hash) ts =
        count-le (is_spent hash) (has_hash hash) (λ x e. ground arith) ts in
      (t, rw hit refl, ground (arith, rest))
  | inr miss ↦
      let (link, found, dead) =
        find_link-spent hash ts (rw miss at some_spent) (rw miss at unique) in
      (link, rw miss found, dead)
]

-- Among the rows of a consumption is its link, consumed.
pub consume-spent_count :
    (now : ℕ) (hash : ℕ) (ts : List VerificationToken) (link : VerificationToken)
    → find_link hash ts ≡ some link
    → 1 ≤ count (is_spent hash) (consume_id link.id now ts)
consume-spent_count now hash [] link found = cc
consume-spent_count now hash (t ∷ ts) link found = elim (Bool-cases (t.token_hash == hash)) [
  | inl hit ↦
      let it : t ≡ link = cc (rw hit at found) in
      let own : (t.id == link.id) ≡ true =
        (==_iff t.id link.id).1 (ap (λ (x : VerificationToken). x.id) it) in
      rw (own, hit) (omega arith)
  | inr miss ↦
      let rest = consume-spent_count now hash ts link (rw miss at found) in
      omega (
        arith,
        rest,
        count-new-le (is_spent hash)
            (if t.id == link.id then record t { consumed_at = some now } else t)
            (consume_id link.id now ts),
      )
]
