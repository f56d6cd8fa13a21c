-- ===== src/Desktop/Tests.antt =====
-- Tests of the clipboard and of the URLs (crates/core/src/clipboard.rs, browser.rs).
use vscfreedev.Base.{◌≡◌, refl, true, none, some, nat_eq, string_eq}
use vscfreedev.Errors.{ok}
use vscfreedev.Desktop.{Clipboard, clear_clipboard, is_clipboard_empty, validate_url}

abbrev held : Clipboard
held = record { content = "text"; poison = none }

cleared : is_clipboard_empty (clear_clipboard held).0 ≡ ok true
unfolding is_clipboard_empty vscfreedev.Desktop.get_clipboard clear_clipboard
    vscfreedev.Desktop.set_clipboard
cleared = refl

opened : validate_url (λ url. some "https") "https://example.com" ≡ ok tt
unfolding validate_url
opened = refl
