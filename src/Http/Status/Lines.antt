-- ===== src/Http/Status/Lines.antt =====
-- A status line is the one of its status.
use https_proxy_server.Base.{
  ℕ, ◌+◌, ◌-◌, ◌*◌, ◌≤◌, Bool, true, false, ◌&&◌, ◌||◌, ◌≡◌, ◌⊎◌, inl, inr, refl, arith, [], ◌∷◌,
  ltb, leb, ◌==◌, Bytes, passes_from, table_lem, Bool-cases, get_or, not,
}
use https_proxy_server.Http.Status.{StatusLine, null, fault, text, http_get_status_line}

-- The three digits at the front of a line, as a number.
unfoldable pub leading_status : Bytes → ℕ
leading_status line =
    100 * (get_or line 0 0 - b'0') + 10 * (get_or line 1 0 - b'0') + (get_or line 2 0 - b'0')

-- The statuses that the tables cover.
abbrev pub is_covered : ℕ → Bool
is_covered s =
    (leb 100 s && ltb s 102)
    || (leb 200 s && ltb s 207)
    || (leb 301 s && ltb s 308)
    || (leb 400 s && ltb s 418)
    || (leb 500 s && ltb s 508)
    || (leb 550 s && ltb s 558)

-- A line in the tables is empty or starts with the status that selects it; a status outside them
-- has none; no read is past the end of a table.
abbrev pub Fits : ℕ → StatusLine → Type 0
Fits status null = is_covered status ≡ false
Fits status fault = ⊥
Fits status (text line) =
    (is_covered status ≡ true) × ((line ≡ []) ⊎ (leading_status line ≡ status))

fits : ℕ → StatusLine → Bool
fits status null = not (is_covered status)
fits status fault = false
fits status (text []) = is_covered status
fits status (text (c ∷ line)) = is_covered status && leading_status (c ∷ line) == status

fits_sound : (status : ℕ) (line : StatusLine) → fits status line ≡ true → Fits status line
unfolding fits
fits_sound status null h = ground arith
fits_sound status fault h = cc
fits_sound status (text []) h = (h, inl refl)
fits_sound status (text (c ∷ line)) h =
    let e : leading_status (c ∷ line) ≡ status = ground arith in (ground arith, inr e)

table : passes_from 0 600 (λ s. fits s (http_get_status_line s)) ≡ true
unfolding passes_from fits http_get_status_line leading_status
table = refl

beyond : (status : ℕ) → 600 ≤ status → fits status (http_get_status_line status) ≡ true
unfolding fits http_get_status_line
beyond status h = ground arith

-- Every status has the line that the tables hold for it, or none.
pub http_get_status_line-Fits : (status : ℕ) → Fits status (http_get_status_line status)
http_get_status_line-Fits status =
    fits_sound status (http_get_status_line status) (elim (Bool-cases (ltb status 600)) [
      | inl small ↦ table_lem 600 (λ s. fits s (http_get_status_line s)) status table (ground arith)
      | inr large ↦ beyond status (ground arith)
    ])
