-- ===== src/Office/Standings.antt =====
-- web/src/components/admin/standings.tsx: the two boards as the organisers see them. `has` is
-- `a.toLowerCase().includes(b.toLowerCase())`.
use codolympics.Prelude.{
  ℕ, Bool, ◌||◌, String, List, Option, none, some, if◌then◌else◌, ltb, ◌==◌, length, take, keep,
  str_eq, ℤ,
}

-- `P1Row` and `P2Row`.
pub record P1Row : Type 0 where
  pub participant_id : String
  pub name : String
  pub points : ℕ
  pub provisional : Bool
  pub submitted_at : Option String
  pub disqualified : Bool
  pub advanced : Option Bool
  pub rank : ℕ

pub record P2Row : Type 0 where
  pub participant_id : String
  pub name : String
  pub score : ℕ
  pub solved : ℕ
  pub total_time_ms : ℤ
  pub phase1_rank : Option ℕ
  pub rank : ℕ

-- `Rank`: a dash, the winner's mark, a mark for the next two, a number.
pub data RankMark : Type 0 where
  unranked first : RankMark
  near number : ℕ → RankMark

unfoldable pub rank_mark : ℕ → RankMark
rank_mark rank =
    if rank == 0
    then unranked
    else if ltb 3 rank
    then number rank
    else if rank == 1
    then first
    else near rank

unfoldable p1_rank : P1Row → RankMark
unfolding rank_mark
p1_rank r = rank_mark (if r.disqualified then 0 else r.rank)

pub data Standing : Type 0 where
  disqualified provisional final : Standing

unfoldable p1_status : P1Row → Standing
p1_status r = if r.disqualified then disqualified else if r.provisional then provisional else final

module _ {R : Type 0} (has : String → String → Bool) (name_of : R → String) where
  unfoldable pub shown : (filter : String) → List R → List R
  shown filter all = keep (λ (r : R). str_eq filter "" || has (name_of r) filter) all

  -- What is on screen: ten rows on a card, the page's rows on the full board.
  unfoldable pub display :
      (compact : Bool) → (paged : List R → List R) → (filter : String) → List R → List R
  unfolding shown
  display compact paged filter all =
      if compact then take 10 (shown filter all) else paged (shown filter all)

-- What the card says above its rows.
pub data Caption : Type 0 where
  nothing : Caption
  top_ten_of everyone : ℕ → Caption

unfoldable pub caption : {R : Type 0} → Option (List R) → Caption
caption none = nothing
caption (some rows) =
    if length rows == 0
    then nothing
    else if ltb 10 (length rows)
    then top_ten_of (length rows)
    else everyone (length rows)

unfoldable scored : List P2Row → ℕ
scored rows = length (keep (λ (r : P2Row). ltb 0 r.score) rows)
