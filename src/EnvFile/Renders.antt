-- ===== src/EnvFile/Renders.antt =====
-- What `render` of scripts/lib/env-persistence.ts writes is read as the keys of both wallets.
use cr3d_x.Base.{
  String, ◌<>◌, ◌≡◌, ◌≢◌, refl, subst, both_true, Bool, true, ◌&&◌, not, Option, none, some, [],
  ◌∷◌, arith, is_space, trim_end,
}
use cr3d_x.Types.Port.{ok}
use cr3d_x.EnvFile.Text.{is_private_key, read_key, append_entry, render_missing, render}
use cr3d_x.EnvFile.Lines.{IsPlain}
use cr3d_x.EnvFile.Entries.{Reads}
use cr3d_x.EnvFile.Rereads.{
  Reads-append_keeps, Reads-append_other, Reads-append_self, Reads-newline, Reads-trim_end,
  read_key-Reads, Reads-read_key,
}
use cr3d_x.EnvFile.Update.{variables}

abbrev pub deployer : String
deployer = "DEPLOYER_PRIVATE_KEY"

abbrev pub borrower : String
borrower = "BORROWER_PRIVATE_KEY"

is_plain : String → Bool
is_plain String.[] = true
is_plain (String.◌∷◌ c text) = not (is_space c) && is_plain text

is_plain-IsPlain : (text : String) → is_plain text ≡ true → IsPlain text
unfolding is_plain
is_plain-IsPlain String.[] e = tt
is_plain-IsPlain (String.◌∷◌ c text) e =
    let (first, rest) = both_true (not (is_space c)) (is_plain text) e in
    (ground (arith, first), is_plain-IsPlain text rest)

deployer-IsPlain : IsPlain (deployer <> "=")
unfolding is_space is_plain
deployer-IsPlain = is_plain-IsPlain (deployer <> "=") refl

borrower-IsPlain : IsPlain (borrower <> "=")
unfolding is_space is_plain
borrower-IsPlain = is_plain-IsPlain (borrower <> "=") refl

some_deployer : deployer <> "=" ≢ ""
some_deployer e = cc e

some_borrower : borrower <> "=" ≢ ""
some_borrower e = cc e

-- The text behind the loop of render is read as the keys.
abbrev ReadsBoth : String → String → String → Type 0
ReadsBoth text a b = Reads (deployer <> "=") text (some a) × Reads (borrower <> "=") text (some b)

-- The keys are valid, and those that were there before are kept.
abbrev pub Continues : Option String → String → Type 0
Continues none key = is_private_key key ≡ true
Continues (some old) key = (old ≡ key) × (is_private_key key ≡ true)

render_missing-ReadsBoth :
    (next : String) (old_a old_b : Option String) (a b : String)
    → Reads (deployer <> "=") next old_a
    → Reads (borrower <> "=") next old_b
    → Continues old_a a
    → Continues old_b b
    → ReadsBoth (render_missing next variables (old_a ∷ old_b ∷ []) (a ∷ b ∷ [])) a b
unfolding render_missing
render_missing-ReadsBoth next none none a b ra rb ca cb =
    let with_a =
      Reads-append_self (deployer <> "=") deployer-IsPlain next deployer a refl some_deployer ca
        ra in
    let still_no_b =
      Reads-append_other (borrower <> "=") borrower-IsPlain next deployer a refl deployer-IsPlain ca
        rb in
    (
      Reads-append_keeps (deployer <> "=") deployer-IsPlain (append_entry next deployer a) borrower
          b a with_a,
      Reads-append_self (borrower <> "=") borrower-IsPlain (append_entry next deployer a) borrower b
          refl some_borrower cb still_no_b,
    )
render_missing-ReadsBoth next (some old) none a b ra rb ca cb = (
  subst (λ k. Reads (deployer <> "=") (append_entry next borrower b) (some k)) ca.0
      (Reads-append_keeps (deployer <> "=") deployer-IsPlain next borrower b old ra),
  Reads-append_self (borrower <> "=") borrower-IsPlain next borrower b refl some_borrower cb rb,
)
render_missing-ReadsBoth next none (some old) a b ra rb ca cb = (
  Reads-append_self (deployer <> "=") deployer-IsPlain next deployer a refl some_deployer ca ra,
  subst (λ k. Reads (borrower <> "=") (append_entry next deployer a) (some k)) cb.0
      (Reads-append_keeps (borrower <> "=") borrower-IsPlain next deployer a old rb),
)
render_missing-ReadsBoth next (some old_a) (some old_b) a b ra rb ca cb = (
  subst (λ k. Reads (deployer <> "=") next (some k)) ca.0 ra,
  subst (λ k. Reads (borrower <> "=") next (some k)) cb.0 rb,
)

pub Continues-valid :
    (old : Option String) (key : String) → Continues old key → is_private_key key ≡ true
Continues-valid none key c = c
Continues-valid (some old) key c = c.1

-- The rendered file is read as the two keys.
pub read_key-render :
    (original : String) (old_a old_b : Option String) (a b : String)
    → read_key original deployer ≡ ok old_a
    → read_key original borrower ≡ ok old_b
    → Continues old_a a
    → Continues old_b b
    → let text = render original variables (old_a ∷ old_b ∷ []) (a ∷ b ∷ []) in
      (read_key text deployer ≡ ok (some a)) × (read_key text borrower ≡ ok (some b))
unfolding render
read_key-render original old_a old_b a b ea eb ca cb =
    let (ra, va) = read_key-Reads original deployer old_a ea in
    let (rb, vb) = read_key-Reads original borrower old_b eb in
    let trimmed_a =
      Reads-trim_end (deployer <> "=") deployer-IsPlain original old_a some_deployer va ra in
    let trimmed_b =
      Reads-trim_end (borrower <> "=") borrower-IsPlain original old_b some_borrower vb rb in
    let (now_a, now_b) =
      render_missing-ReadsBoth (trim_end original) old_a old_b a b trimmed_a trimmed_b ca cb in
    (
      Reads-read_key _ deployer a
          (Reads-newline (deployer <> "=") deployer-IsPlain _ (some a) now_a)
          (Continues-valid old_a a ca),
      Reads-read_key _ borrower b
          (Reads-newline (borrower <> "=") borrower-IsPlain _ (some b) now_b)
          (Continues-valid old_b b cb),
    )
