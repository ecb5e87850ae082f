-- ===== src/Minimize/Chunks/Scan.antt =====
-- chunks.rs: the scan of `calc_chunks` over the markers.
use minirust.Prelude.{
  sym, ap, ◌==◌, if◌then◌else◌, ℕ, zero, suc, ◌+◌, ◌-◌, ◌≤◌, ◌<◌, ◌≡◌, refl, ◌∙◌, Bool, true, false,
  ◌&&◌, ◌||◌, List, [], ◌∷◌, ◌++◌, Option, none, some, length, get_or, ltb, leb, arith,
}
use mathlib.Core.List.{append_assoc, append-nil}
use minirust.Minimize.Chunks.{scan}

-- Byte `j` lies in one of the chunks.
abbrev pub covers : List (ℕ × ℕ) → ℕ → Bool
covers [] j = false
covers ((start, len) ∷ chunks) j = leb start j && ltb j (start + len) || covers chunks j

-- Byte `j` lies in the chunk that is open before byte `i`.
abbrev covers_open : Option ℕ → ℕ → ℕ → Bool
covers_open none i j = false
covers_open (some s) i j = leb s j && ltb j i

-- An open chunk begins before byte `i`.
abbrev IsOpen : Option ℕ → ℕ → Type 0
IsOpen none i = Unit
IsOpen (some s) i = s < i

covers-append : (xs ys : List (ℕ × ℕ)) (j : ℕ) → covers (xs ++ ys) j ≡ (covers xs j || covers ys j)
covers-append [] ys j = refl
covers-append ((s, n) ∷ xs) ys j = ground (arith, covers-append xs ys j)

get_or-cons :
    (b : Bool) (markers : List Bool) (k : ℕ)
    → get_or (b ∷ markers) k false ≡ (if k == 0 then b else get_or markers (k - 1) false)
get_or-cons b markers zero = refl
get_or-cons b markers (suc k) = let e : suc k - 1 ≡ k = omega arith in rw e (ground arith)

-- The marker of byte `j`, read from byte `i` on, is the first one or stands behind it.
marker_from :
    (b : Bool) (markers : List Bool) (i j : ℕ)
    → (leb i j && get_or (b ∷ markers) (j - i) false)
      ≡ (i == j && b || leb (i + 1) j && get_or markers (j - (i + 1)) false)
marker_from b markers i j =
    rw (get_or-cons, (let e : j - i - 1 ≡ j - (i + 1) = omega arith in e)) (ground arith)

covers-scan :
    (i : ℕ) (start : Option ℕ) (chunks : List (ℕ × ℕ)) (markers : List Bool) (j : ℕ)
    → IsOpen start i
    → covers (scan i start chunks (markers ++ false ∷ [])) j
      ≡ (covers chunks j || covers_open start i j || leb i j && get_or markers (j - i) false)
unfolding scan
covers-scan i none chunks [] j h = ground arith
covers-scan i (some s) chunks [] j h = ground (arith, covers-append chunks ((s, i - s) ∷ []) j)
covers-scan i none chunks (true ∷ markers) j h = ground (
  arith,
  covers-scan (i + 1) (some i) chunks markers j (omega arith),
  marker_from true markers i j,
)
covers-scan i none chunks (false ∷ markers) j h =
    ground (arith, covers-scan (i + 1) none chunks markers j tt, marker_from false markers i j)
covers-scan i (some s) chunks (true ∷ markers) j h = ground (
  arith,
  covers-scan (i + 1) (some s) chunks markers j (omega arith),
  marker_from true markers i j,
)
covers-scan i (some s) chunks (false ∷ markers) j h = ground (
  arith,
  covers-scan (i + 1) none (chunks ++ (s, i - s) ∷ []) markers j tt,
  covers-append chunks ((s, i - s) ∷ []) j,
  marker_from false markers i j,
)

-- The chunks found from byte `i` on come behind those that were there.
scan-append :
    (i : ℕ) (start : Option ℕ) (chunks : List (ℕ × ℕ)) (markers : List Bool)
    → scan i start chunks markers ≡ chunks ++ scan i start [] markers
unfolding scan
scan-append i start chunks [] = sym (append-nil chunks)
scan-append i none chunks (true ∷ markers) = scan-append (i + 1) (some i) chunks markers
scan-append i none chunks (false ∷ markers) = scan-append (i + 1) none chunks markers
scan-append i (some s) chunks (true ∷ markers) = scan-append (i + 1) (some s) chunks markers
scan-append i (some s) chunks (false ∷ markers) =
    scan-append (i + 1) none (chunks ++ (s, i - s) ∷ []) markers
    ∙ append_assoc chunks _ _
    ∙ ap (λ rest. chunks ++ rest) (sym (scan-append (i + 1) none ((s, i - s) ∷ []) markers))

-- Chunks that begin at byte `lo` or later, end by byte `hi`, hold a byte each, are in ascending
-- order, and have a byte between each and the next.
abbrev pub Separated : ℕ → ℕ → List (ℕ × ℕ) → Type 0
Separated lo hi [] = Unit
Separated lo hi ((start, len) ∷ chunks) =
    (lo ≤ start) × (0 < len) × (start + len ≤ hi) × Separated (start + len + 1) hi chunks

Separated-weaken :
    (lo lo' hi : ℕ) (chunks : List (ℕ × ℕ))
    → lo' ≤ lo
    → Separated lo hi chunks
    → Separated lo' hi chunks
Separated-weaken lo lo' hi [] h s = tt
Separated-weaken lo lo' hi ((start, len) ∷ chunks) h s = (omega arith, s.1, s.2, s.3)

-- Where the next chunk may begin.
abbrev first_byte : Option ℕ → ℕ → ℕ
first_byte none i = i
first_byte (some s) i = s

Separated-scan :
    (i : ℕ) (start : Option ℕ) (markers : List Bool) (hi : ℕ)
    → IsOpen start i
    → hi ≡ i + length markers
    → Separated (first_byte start i) hi (scan i start [] (markers ++ false ∷ []))
unfolding scan
Separated-scan i none [] hi h e = tt
Separated-scan i (some s) [] hi h e = (omega arith, omega arith, omega arith, tt)
Separated-scan i none (true ∷ markers) hi h e =
    Separated-scan (i + 1) (some i) markers hi (omega arith) (omega arith)
Separated-scan i none (false ∷ markers) hi h e =
    Separated-weaken (i + 1) i hi _ (omega arith)
      (Separated-scan (i + 1) none markers hi tt (omega arith))
Separated-scan i (some s) (true ∷ markers) hi h e =
    Separated-scan (i + 1) (some s) markers hi (omega arith) (omega arith)
Separated-scan i (some s) (false ∷ markers) hi h e =
    rw (scan-append (i + 1) none ((s, i - s) ∷ [])) (
      omega arith,
      omega arith,
      omega arith,
      Separated-weaken (i + 1) (s + (i - s) + 1) hi _ (omega arith)
          (Separated-scan (i + 1) none markers hi tt (omega arith)),
    )

-- The chunks of a list of markers cover the bytes that it marks, and no others.
pub covers-scan_all :
    (markers : List Bool) (j : ℕ)
    → covers (scan 0 none [] (markers ++ false ∷ [])) j ≡ get_or markers j false
covers-scan_all markers j =
    let e : j - 0 ≡ j = omega arith in covers-scan 0 none [] markers j tt ∙ rw e (ground arith)

-- They are the runs of marked bytes: in order, not empty, apart from one another, and within the list.
pub Separated-scan_all :
    (markers : List Bool) → Separated 0 (length markers) (scan 0 none [] (markers ++ false ∷ []))
Separated-scan_all markers = Separated-scan 0 none markers (length markers) tt (omega arith)
