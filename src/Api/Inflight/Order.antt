-- ===== src/Api/Inflight/Order.antt =====
-- The order of the inflight set by registration.
use buildkit_operator.Base.{ℕ, zero, suc, ◌≤◌, Bool, List, [], ◌∷◌, ◌++◌, drop, filter, All, arith}
use buildkit_operator.Api.Types.{InflightBuild}

-- No entry is older than the one before it, and the first is not older than `lo`.
abbrev pub IsChronological : ℕ → List InflightBuild → Type 0
IsChronological lo [] = Unit {0}
IsChronological lo (b ∷ bs) = (lo ≤ b.since) × IsChronological b.since bs

abbrev pub IsBy : ℕ → List InflightBuild → Type 0
IsBy now bs = All (λ (b : InflightBuild). b.since ≤ now) bs

pub IsChronological-mono :
    (lo hi : ℕ) (bs : List InflightBuild) → lo ≤ hi → IsChronological hi bs → IsChronological lo bs
IsChronological-mono lo hi [] h c = tt
IsChronological-mono lo hi (b ∷ bs) h c = (omega arith, c.1)

pub IsChronological-drop :
    (lo n : ℕ) (bs : List InflightBuild) → IsChronological lo bs → IsChronological lo (drop n bs)
IsChronological-drop lo zero bs c = c
IsChronological-drop lo (suc n) [] c = tt
IsChronological-drop lo (suc n) (b ∷ bs) c =
    IsChronological-mono lo b.since (drop n bs) c.0 (IsChronological-drop b.since n bs c.1)

pub IsChronological-filter :
    (lo : ℕ) (p : InflightBuild → Bool) (bs : List InflightBuild)
    → IsChronological lo bs
    → IsChronological lo (filter p bs)
IsChronological-filter lo p [] c = tt
IsChronological-filter lo p (b ∷ bs) c =
    let rest = IsChronological-filter b.since p bs c.1 in
    ground (arith, rest, IsChronological-mono lo b.since (filter p bs) c.0 rest)

-- A new entry that is not older than any other goes to the end.
pub IsChronological-append :
    (lo : ℕ) (bs : List InflightBuild) (b : InflightBuild)
    → lo ≤ b.since
    → IsBy b.since bs
    → IsChronological lo bs
    → IsChronological lo (bs ++ (b ∷ []))
IsChronological-append lo [] b h by c = (h, tt)
IsChronological-append lo (x ∷ xs) b h by c =
    (c.0, IsChronological-append x.since xs b by.0 by.1 c.1)

-- One entry may be taken out anywhere.
pub IsChronological-remove :
    (lo : ℕ) (before : List InflightBuild) (b : InflightBuild) (after : List InflightBuild)
    → IsChronological lo (before ++ (b ∷ after))
    → IsChronological lo (before ++ after)
IsChronological-remove lo [] b after c = IsChronological-mono lo b.since after c.0 c.1
IsChronological-remove lo (x ∷ xs) b after c = (c.0, IsChronological-remove x.since xs b after c.1)

pub IsBy-remove :
    (now : ℕ) (before : List InflightBuild) (b : InflightBuild) (after : List InflightBuild)
    → IsBy now (before ++ (b ∷ after))
    → IsBy now (before ++ after)
IsBy-remove now [] b after c = c.1
IsBy-remove now (x ∷ xs) b after c = (c.0, IsBy-remove now xs b after c.1)

pub IsBy-mono : (t u : ℕ) (bs : List InflightBuild) → t ≤ u → IsBy t bs → IsBy u bs
IsBy-mono t u [] h c = tt
IsBy-mono t u (b ∷ bs) h c = (omega arith, IsBy-mono t u bs h c.1)
