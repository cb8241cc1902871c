-- ===== src/Std/Text/Laws.antt =====
-- Printable ASCII text, such as that of a number, is UTF-8.
use shrikedb.Prelude.{◌≡◌, ◌≤◌, ◌<◌, refl, true, [], ◌∷◌, ◌++◌, arith}
use shrikedb.Std.Bytes.{Bytes}
use shrikedb.Std.Text.{utf8_from, is_utf8}

abbrev pub Printable : Bytes → Type 0
Printable [] = Unit
Printable (b ∷ s) = (32 ≤ b) × (b < 128) × Printable s

pub Printable-append : (s t : Bytes) → Printable s → Printable t → Printable (s ++ t)
Printable-append [] t hs ht = ht
Printable-append (b ∷ s) t hs ht = (hs.0, hs.1, Printable-append s t hs.2 ht)

utf8_from-Printable : (s : Bytes) → Printable s → utf8_from 0 0 0 s ≡ true
unfolding utf8_from
utf8_from-Printable [] h = refl
utf8_from-Printable (b ∷ s) h = ground (arith, utf8_from-Printable s)

pub is_utf8-Printable : (s : Bytes) → Printable s → is_utf8 s ≡ true
unfolding is_utf8
is_utf8-Printable s h = utf8_from-Printable s h
