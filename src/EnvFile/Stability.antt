-- ===== src/EnvFile/Stability.antt =====
-- A second run of `updateWalletEnv` of scripts/lib/env-persistence.ts finds the keys of the first.
use cr3d_x.Base.{
  ℕ, ◌-◌, String, ◌≡◌, refl, sym, ap, ◌∙◌, subst, both_true, Bool, true, false, ◌==◌, Option, none,
  some, List, [], ◌∷◌, arith, length,
}
use cr3d_x.Types.Port.{Result, ok}
use cr3d_x.Types.Fallible.{guard, map_all, bind-eq-ok, guard-eq-ok}
use cr3d_x.EnvFile.Text.{read_key, render}
use cr3d_x.EnvFile.Renders.{deployer, borrower, Continues, read_key-render}
use cr3d_x.EnvFile.Rereads.{IsValidKey, read_key-Reads}
use cr3d_x.EnvFile.Update.{
  variables, bad_keys, assert_distinct, present_keys, fill_keys, check_present, all_private,
  WalletUpdate, accept_keys, complete_keys, decide,
}

-- What a decision stands on.
record IsDecided (original : String) (u : WalletUpdate) : Type 0 where
  old_a : Option String
  old_b : Option String
  reads_a : read_key original deployer ≡ ok old_a
  reads_b : read_key original borrower ≡ ok old_b
  generated : List String
  enough : (length generated == 2 - length (present_keys (old_a ∷ old_b ∷ []))) ≡ true
  all_valid : all_private generated ≡ true
  keys_are : u.keys ≡ fill_keys (old_a ∷ old_b ∷ []) generated
  distinct : assert_distinct u.keys ≡ ok tt
  written : u.contents ≡ render original variables (old_a ∷ old_b ∷ []) u.keys

accept_keys-IsDecided :
    (original : String) (existed : Bool) (old_a old_b : Option String) (generated : List String)
    {u : WalletUpdate}
    → read_key original deployer ≡ ok old_a
    → read_key original borrower ≡ ok old_b
    → accept_keys original existed (old_a ∷ old_b ∷ []) generated ≡ ok u
    → IsDecided original u
unfolding accept_keys
accept_keys-IsDecided original existed old_a old_b generated {u} ra rb e =
    let (u1, guarded, e1) = bind-eq-ok (guard _ bad_keys) _ e in
    let (u2, distinct, e2) = bind-eq-ok (assert_distinct _) _ e1 in
    let (enough, all_valid) =
      both_true (length generated == 2 - length (present_keys (old_a ∷ old_b ∷ [])))
        (all_private generated) (guard-eq-ok _ bad_keys guarded) in
    let same_keys : u.keys ≡ fill_keys (old_a ∷ old_b ∷ []) generated = ground (arith, e2) in
    record {
      old_a = old_a;
      old_b = old_b;
      reads_a = ra;
      reads_b = rb;
      generated = generated;
      enough = enough;
      all_valid = all_valid;
      keys_are = same_keys;
      distinct = subst (λ ks. assert_distinct ks ≡ ok tt) (sym same_keys) distinct;
      written = ground (arith, e2);
    }

map_all_two :
    {A B : Type 0} (f : A → Result B) (x y : A) {zs : List B}
    → map_all f (x ∷ y ∷ []) ≡ ok zs
    → (a : B) × (b : B) × (f x ≡ ok a) × (f y ≡ ok b) × (a ∷ b ∷ [] ≡ zs)
unfolding map_all
map_all_two f x y e =
    let (a, at_x, e1) = bind-eq-ok (f x) _ e in
    let (rest, at_rest, e2) = bind-eq-ok (map_all f (y ∷ [])) _ e1 in
    let (b, at_y, e3) = bind-eq-ok (f y) _ at_rest in (a, b, at_x, at_y, cc (e2, e3))

decide-IsDecided :
    (generate_keys : ℕ → Result (List String)) (original : String) (existed : Bool)
    {u : WalletUpdate}
    → decide generate_keys original existed ≡ ok u
    → IsDecided original u
unfolding decide complete_keys
decide-IsDecided generate_keys original existed {u} e =
    let (existing, read_all, e1) = bind-eq-ok (map_all (read_key original) variables) _ e in
    let (old_a, old_b, ra, rb, same) = map_all_two (read_key original) deployer borrower read_all in
    let (u1, checked, e2) = bind-eq-ok (check_present (present_keys existing)) _ e1 in
    let (generated, made, e3) =
      bind-eq-ok (generate_keys (length variables - length (present_keys existing))) _ e2 in
    accept_keys-IsDecided original existed old_a old_b generated ra rb
      (subst (λ ex. accept_keys original existed ex generated ≡ ok u) (sym same) e3)

-- The keys are the old ones where there are some, and generated ones elsewhere.
record AreFilled (old_a old_b : Option String) (keys : List String) : Type 0 where
  a : String
  b : String
  both : keys ≡ a ∷ b ∷ []
  first : Continues old_a a
  second : Continues old_b b

fill_keys-AreFilled :
    (old_a old_b : Option String) (generated : List String)
    → IsValidKey old_a
    → IsValidKey old_b
    → (length generated == 2 - length (present_keys (old_a ∷ old_b ∷ []))) ≡ true
    → all_private generated ≡ true
    → AreFilled old_a old_b (fill_keys (old_a ∷ old_b ∷ []) generated)
unfolding fill_keys present_keys all_private
fill_keys-AreFilled none none (a ∷ b ∷ []) va vb enough valid = record {
  a = a;
  b = b;
  both = refl;
  first = ground arith;
  second = ground arith;
}
fill_keys-AreFilled none none [] va vb enough valid = ground arith
fill_keys-AreFilled none none (a ∷ []) va vb enough valid = ground arith
fill_keys-AreFilled none none (a ∷ b ∷ c ∷ more) va vb enough valid = ground arith
fill_keys-AreFilled (some old) none (b ∷ []) va vb enough valid = record {
  a = old;
  b = b;
  both = refl;
  first = (refl, va);
  second = ground arith;
}
fill_keys-AreFilled (some old) none [] va vb enough valid = ground arith
fill_keys-AreFilled (some old) none (a ∷ b ∷ more) va vb enough valid = ground arith
fill_keys-AreFilled none (some old) (a ∷ []) va vb enough valid = record {
  a = a;
  b = old;
  both = refl;
  first = ground arith;
  second = (refl, vb);
}
fill_keys-AreFilled none (some old) [] va vb enough valid = ground arith
fill_keys-AreFilled none (some old) (a ∷ b ∷ more) va vb enough valid = ground arith
fill_keys-AreFilled (some a) (some b) [] va vb enough valid = record {
  a = a;
  b = b;
  both = refl;
  first = (refl, va);
  second = (refl, vb);
}
fill_keys-AreFilled (some a) (some b) (c ∷ more) va vb enough valid = ground arith

decided-AreFilled :
    (original : String) (u : WalletUpdate) (d : IsDecided original u)
    → AreFilled d.old_a d.old_b u.keys
decided-AreFilled original u d = subst (AreFilled d.old_a d.old_b) (sym d.keys_are) (
    fill_keys-AreFilled d.old_a d.old_b d.generated
      (read_key-Reads original deployer d.old_a d.reads_a).1
      (read_key-Reads original borrower d.old_b d.reads_b).1 d.enough d.all_valid)

-- Two keys that are there are the answer, and nothing is to be written.
decide-present :
    (generate_keys : ℕ → Result (List String)) (text a b : String)
    → read_key text deployer ≡ ok (some a)
    → read_key text borrower ≡ ok (some b)
    → assert_distinct (a ∷ b ∷ []) ≡ ok tt
    → generate_keys 0 ≡ ok []
    → (again : WalletUpdate) × (decide generate_keys text true ≡ ok again)
      × (again.keys ≡ a ∷ b ∷ [])
      × (again.changed ≡ false)
unfolding decide complete_keys accept_keys map_all check_present present_keys fill_keys all_private
decide-present generate_keys text a b ra rb distinct none_made = (
  record {
    keys = a ∷ b ∷ [];
    changed = false;
    contents = render text variables (some a ∷ some b ∷ []) (a ∷ b ∷ []);
  },
  rw (ra, rb, distinct, none_made) refl,
  refl,
  refl,
)

-- What a run leaves for the next one.
pub record IsStable (original : String) (generate_keys : ℕ → Result (List String))
    (u : WalletUpdate) : Type 0 where
  pub a : String
  pub b : String
  pub both : u.keys ≡ a ∷ b ∷ []
  pub distinct : assert_distinct (a ∷ b ∷ []) ≡ ok tt
  pub kept_a : (old : String) → read_key original deployer ≡ ok (some old) → old ≡ a
  pub kept_b : (old : String) → read_key original borrower ≡ ok (some old) → old ≡ b
  pub again : WalletUpdate
  pub runs : decide generate_keys u.contents true ≡ ok again
  pub same_keys : again.keys ≡ u.keys
  pub unchanged : again.changed ≡ false

kept_key :
    (original variable : String) (found : Option String) (key : String)
    → read_key original variable ≡ ok found
    → Continues found key
    → (old : String) → read_key original variable ≡ ok (some old)
    → old ≡ key
kept_key original variable none key r c old e = ground (arith, r, e)
kept_key original variable (some before) key r c old e = ground (arith, r, e)

-- A run that returns answers two different private keys; it keeps the ones that the file had; and where
-- the generator answers no keys when none are asked for, a second run on the new text answers the same
-- keys and changes nothing.
pub decide-IsStable :
    (generate_keys : ℕ → Result (List String)) (original : String) (existed : Bool)
    {u : WalletUpdate}
    → generate_keys 0 ≡ ok []
    → decide generate_keys original existed ≡ ok u
    → IsStable original generate_keys u
decide-IsStable generate_keys original existed {u} none_made e =
    let d = decide-IsDecided generate_keys original existed e in
    let filled = decided-AreFilled original u d in
    let distinct = subst (λ ks. assert_distinct ks ≡ ok tt) filled.both d.distinct in
    let text = d.written ∙ ap (render original variables (d.old_a ∷ d.old_b ∷ [])) filled.both in
    let (ra, rb) =
      read_key-render original d.old_a d.old_b filled.a filled.b d.reads_a d.reads_b filled.first
        filled.second in
    let (again, runs, keys, unchanged) =
      decide-present generate_keys u.contents filled.a filled.b
        (subst (λ t. read_key t deployer ≡ ok (some filled.a)) (sym text) ra)
        (subst (λ t. read_key t borrower ≡ ok (some filled.b)) (sym text) rb) distinct none_made in
    record {
      a = filled.a;
      b = filled.b;
      both = filled.both;
      distinct = distinct;
      kept_a = kept_key original deployer d.old_a filled.a d.reads_a filled.first;
      kept_b = kept_key original borrower d.old_b filled.b d.reads_b filled.second;
      again = again;
      runs = runs;
      same_keys = keys ∙ sym filled.both;
      unchanged = unchanged;
    }
