-- ===== src/EnvFile/Rereads.antt =====
-- The keys that scripts/lib/env-persistence.ts writes are the keys that it reads when it runs again.
use text.Mathlib.TextEquality.{eq_iff}
use text.Mathlib.TextLemmas.{nil-append, append-nil, append_assoc}
use cr3d_x.Base.{
  String, ◌<>◌, str_eq, ◌≡◌, ◌≢◌, refl, sym, ap, ◌∙◌, subst, inl, inr, Bool-cases, true, Option,
  none, some, arith, trim_end, trim,
}
use cr3d_x.Types.Port.{ok}
use cr3d_x.EnvFile.Text.{find_value, or_else, is_private_key, checked_key, read_key, append_entry}
use cr3d_x.EnvFile.Lines.{IsPlain, find_value-newline}
use cr3d_x.EnvFile.Trims.{find_value-trim_end}
use cr3d_x.EnvFile.Entries.{
  private_key-IsPlain, private_key-ne-empty, trim-plain, ReadsAs, Reads, HeadsDiffer,
  find_value-entry, find_value-other,
}

-- Where something is read, it is a private key.
abbrev pub IsValidKey : Option String → Type 0
IsValidKey none = Unit {0}
IsValidKey (some key) = is_private_key key ≡ true

find_value-append_entry :
    (prefix next variable key : String)
    → IsPlain prefix
    → find_value prefix true (append_entry next variable key)
      ≡ or_else (find_value prefix true next) (find_value prefix true ((variable <> "=") <> key))
unfolding append_entry
find_value-append_entry prefix next variable key plain = elim (Bool-cases (str_eq next "")) [
  | inl empty ↦
      let same = (eq_iff next "").0 empty in
      rw (empty, nil-append) (rw same (unfold find_value or_else in refl))
  | inr some_text ↦
      rw (some_text, append_assoc)
        (find_value-newline prefix true next ((variable <> "=") <> key) plain)
]

or_else-none : (o : Option String) → or_else o none ≡ o
unfolding or_else
or_else-none none = refl
or_else-none (some a) = refl

module _ (prefix : String) (plain : IsPlain prefix) where
  -- What is read stays read.
  pub Reads-append_keeps :
      (next other key old : String)
      → Reads prefix next (some old)
      → Reads prefix (append_entry next other key) (some old)
  Reads-append_keeps next other key old (value, found, same) = (
    value,
    find_value-append_entry prefix next other key plain ∙ rw found (unfold or_else in refl),
    same,
  )

  pub Reads-append_other :
      (next other key : String)
      → HeadsDiffer prefix (other <> "=")
      → IsPlain (other <> "=")
      → is_private_key key ≡ true
      → Reads prefix next none
      → Reads prefix (append_entry next other key) none
  Reads-append_other next other key differ other_plain valid missing =
      find_value-append_entry prefix next other key plain
      ∙ rw missing
          (unfold or_else in find_value-other prefix (other <> "=") key differ other_plain valid)

  pub Reads-newline :
      (next : String) (o : Option String) → Reads prefix next o → Reads prefix (next <> "\n") o
  unfolding find_value
  Reads-newline next o reads = subst (λ f. ReadsAs f o) (sym find_value-last_newline) reads
    where
      find_value-last_newline : find_value prefix true (next <> "\n") ≡ find_value prefix true next
      find_value-last_newline =
          ap (λ t. find_value prefix true (next <> t)) (sym (append-nil "\n"))
          ∙ find_value-newline prefix true next "" plain
          ∙ or_else-none (find_value prefix true next)

  pub Reads-trim_end :
      (text : String) (o : Option String)
      → prefix ≢ ""
      → IsValidKey o
      → Reads prefix text o
      → Reads prefix (trim_end text) o
  Reads-trim_end text none some_prefix valid missing =
      rw missing at (find_value-trim_end prefix text some_prefix plain)
  Reads-trim_end text (some key) some_prefix valid (value, found, same) =
      let agrees = rw found at (find_value-trim_end prefix text some_prefix plain) in
      let (shorter, found', same') =
        agrees (λ empty. private_key-ne-empty key valid (sym same ∙ empty)) in
      (shorter, found', same' ∙ same)

  pub Reads-append_self :
      (next variable key : String)
      → variable <> "=" ≡ prefix
      → prefix ≢ ""
      → is_private_key key ≡ true
      → Reads prefix next none
      → Reads prefix (append_entry next variable key) (some key)
  Reads-append_self next variable key same some_prefix valid missing = (
    key,
    find_value-append_entry prefix next variable key plain
        ∙ rw (missing, same) (unfold or_else in find_value-entry prefix key some_prefix valid),
    trim-plain key (private_key-IsPlain key valid),
  )

checked_key-ReadsAs :
    (variable : String) (found o : Option String)
    → checked_key variable found ≡ ok o
    → ReadsAs found o × IsValidKey o
unfolding checked_key
checked_key-ReadsAs variable none none e = (refl, tt)
checked_key-ReadsAs variable none (some key) e = ground arith
checked_key-ReadsAs variable (some value) none e = ground arith
checked_key-ReadsAs variable (some value) (some key) e =
    elim (Bool-cases (is_private_key (trim value))) [
      | inl valid ↦
          let same : trim value ≡ key = ground (arith, valid) in
          ((value, refl, same), subst (λ k. is_private_key k ≡ true) same valid)
      | inr bad ↦ ground (arith, bad)
    ]

-- What `readKey` answers is what is found.
pub read_key-Reads :
    (text variable : String) (o : Option String)
    → read_key text variable ≡ ok o
    → Reads (variable <> "=") text o × IsValidKey o
unfolding read_key
read_key-Reads text variable o e = checked_key-ReadsAs variable _ o e

pub Reads-read_key :
    (text variable key : String)
    → Reads (variable <> "=") text (some key)
    → is_private_key key ≡ true
    → read_key text variable ≡ ok (some key)
unfolding read_key checked_key
Reads-read_key text variable key (value, found, same) valid = rw found (rw same (rw valid refl))
