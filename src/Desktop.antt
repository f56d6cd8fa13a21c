-- ===== src/Desktop.antt =====
-- crates/core/src/clipboard.rs and crates/core/src/browser.rs: the clipboard, which is one text
-- that the process shares, and the check of the URLs that are opened.
mod Tests
use Prim.Native.String.{◌++◌ as ◌<>◌}
use vscfreedev.Base.{
  ℕ, zero, suc, ◌+◌, ◌-◌, ◌*◌, ◌/◌, ◌%◌, ◌^◌, ◌≤◌, ◌<◌, min, max, String, ◌≡◌, refl, sym, ap, subst,
  ◌∙◌, ◌≢◌, ◌↔◌, ◌⊎◌, inl, inr, Bool, true, false, not, ◌&&◌, ◌||◌, Option, none, some, List, [],
  ◌∷◌, ◌++◌, map, arith, ltb, leb, if◌then◌else◌, Eq, ◌==◌, nat_beq, nat_beq_iff, nat_eq, string_eq,
  beq_refl, Bool-cases, Option-cases, length, is_empty, retain, All, every, exists, contains, count,
  without, length-append, length-retain-le, count-append, count-without, length-without-le,
}
use vscfreedev.Errors.{Result, ok, err, ClipboardError, BrowserError, YuhaError}

-- `CLIPBOARD_STORAGE`; `poison` is the text of the lock's error, once the lock is poisoned.
pub record Clipboard : Type 0 where
  pub content : String
  pub poison : Option String

abbrev pub lock_failed : String → YuhaError
lock_failed reason = YuhaError.clipboard (ClipboardError.lock_failed reason)

unfoldable pub get_clipboard : Clipboard → Result String
get_clipboard c = elim c.poison [
  | none ↦ ok c.content
  | some e ↦ err (lock_failed ("Read lock poisoned: " <> e))
]

unfoldable pub set_clipboard : Clipboard → String → Clipboard × Result (Unit {0})
set_clipboard c content = elim c.poison [
  | none ↦ (record c { content = content }, ok tt)
  | some e ↦ (c, err (lock_failed ("Write lock poisoned: " <> e)))
]

unfoldable pub clear_clipboard : Clipboard → Clipboard × Result (Unit {0})
clear_clipboard c = set_clipboard c ""

empty_text : Result String → Result Bool
empty_text (ok content) = ok (content == "")
empty_text (err e) = err e

unfoldable pub is_clipboard_empty : Clipboard → Result Bool
unfolding empty_text
is_clipboard_empty c = empty_text (get_clipboard c)

-- What is set is what is read, and it is empty when it is the empty text; a poisoned clipboard
-- refuses to be set, stays as it is and cannot be read.
pub set_clipboard-result :
    (c : Clipboard) (content : String)
    → (((set_clipboard c content).1 ≡ ok tt)
        × (get_clipboard (set_clipboard c content).0 ≡ ok content)
        × (is_clipboard_empty (set_clipboard c content).0 ≡ ok (content == "")))
      ⊎ ((e : YuhaError) × ((set_clipboard c content).1 ≡ err e)
          × ((set_clipboard c content).0 ≡ c)
          × ((e' : YuhaError) × (get_clipboard c ≡ err e') × (is_clipboard_empty c ≡ err e')))
unfolding get_clipboard set_clipboard is_clipboard_empty empty_text
set_clipboard-result c content = elim (Option-cases c.poison) [
  | inl sane ↦ inl (rw sane refl, rw sane refl, rw sane refl)
  | inr (e, poisoned) ↦ inr (
    lock_failed ("Write lock poisoned: " <> e),
    rw poisoned refl,
    rw poisoned refl,
    (lock_failed ("Read lock poisoned: " <> e), rw poisoned refl, rw poisoned refl),
  )
]

-- `scheme` is the scheme of a text that `Url::parse` accepts.
module _ (scheme : String → Option String) where
  supported : String → Bool
  supported s = s == "http" || (s == "https" || (s == "file" || s == "ftp"))

  scheme_checked : String → Option String → Result (Unit {0})
  unfolding supported
  scheme_checked url none = err (YuhaError.browser (BrowserError.invalid_url url))
  scheme_checked url (some s) =
      if supported s then ok tt else err (YuhaError.browser (BrowserError.invalid_url url))

  unfoldable pub validate_url : String → Result (Unit {0})
  unfolding scheme_checked
  validate_url url = scheme_checked url (scheme url)

  abbrev pub open_url : String → Result (Unit {0})
  open_url url = validate_url url

  -- Each URL has its own result.
  abbrev pub open_urls : List String → List (Result (Unit {0}))
  open_urls = map open_url
