-- ===== src/ModbusMgr/Reading/Live/Loop.antt =====
-- The loop over the points of a site.
use mathlib.Core.Path.{subst}
use rpinode.Dict.{put, code_eq, get-put, get-put_self}
use rpinode.ModbusMgr.{Point, Store, or_default}
use rpinode.ModbusMgr.Reading.{Value, Row, ask_row, show_read, read_single_point_live, read_rows}
use rpinode.ModbusMgr.Reading.Decode.{World}
use rpinode.Prelude.{
  ◌≡◌, ◌≢◌, refl, sym, ap, ◌∙◌, ◌⊎◌, inl, inr, false, some, List, [], ◌∷◌, ◌==◌, ==_iff, arith,
  Bool-cases, All,
}
use rpinode.Rows.Lookup.{by_id}
use rpinode.Text.{Text, text_eq, decimal}
use rpinode.Text.Contains.{text_eq_iff}
use rpinode.Text.Decimal.{decimal-injective}
use rpinode.ModbusMgr.Reading.Live.Answers.{
  point_after, IsRowOf, same_row, show_read-value, IsOpen, show_read-same, show_read-other, answer,
  shown, CanAsk, IsNoted,
}

module _ (w : World) (st : Store) where
  -- One turn of the loop.
  abbrev pub turn_results : Row → List (Text × Value) → List (Text × Value)
  turn_results s results = put (decimal s.point.id) (shown w s) results

  abbrev pub turn_points : Row → List Point → List Point
  turn_points s points = (show_read w (answer w s) s.point points).1

  -- The turn of a row notes it.
  turn-IsNoted :
      (s : Row) (results : List (Text × Value)) (points : List Point)
      → IsOpen w (answer w s) s.point points
      → IsNoted w s (turn_results s results) (turn_points s points)
  turn-IsNoted s results points o = record {
    listed = get-put_self (decimal s.point.id) (shown w s) results;
    written = show_read-same w (answer w s) s.point points o;
  }

  other_key :
      (r s : Row)
      → r.point.id ≢ s.point.id
      → text_eq (decimal s.point.id) (decimal r.point.id) ≡ false
  other_key r s n = elim (Bool-cases (text_eq (decimal s.point.id) (decimal r.point.id))) [
    | inl same ↦ absurd (n (sym (decimal-injective _ _ ((text_eq_iff _ _).0 same))))
    | inr other ↦ other
  ]

  -- A row that was noted stays noted, whichever row has its turn.
  keeps-IsNoted :
      (r s : Row) (results : List (Text × Value)) (points : List Point)
      → IsRowOf st r
      → IsRowOf st s
      → IsNoted w r results points
      → IsNoted w r (turn_results s results) (turn_points s points)
  keeps-IsNoted r s results points hr hs h = elim (Bool-cases (r.point.id == s.point.id)) [
    | inl same ↦
        let e : r ≡ s = same_row st r s hr hs ((==_iff _ _).0 same) in
        subst (λ x. IsNoted w x (turn_results s results) (turn_points s points)) (sym e)
          (turn-IsNoted s results points (
            inr (
              subst
                (λ x.
                  by_id (λ q. q.id) x.point.id points ≡ some (point_after w (answer w x) x.point))
                e h.written)))
    | inr other ↦
        let n : r.point.id ≢ s.point.id = ground arith in
        record {
          listed =
              get-put (decimal s.point.id) (decimal r.point.id) (shown w s) results
              ∙ rw (other_key r s n) h.listed;
          written = show_read-other w (answer w s) s.point r.point.id points n ∙ h.written;
        }
  ]

  keeps-IsOpen :
      (r s : Row) (points : List Point)
      → IsRowOf st r
      → IsRowOf st s
      → IsOpen w (answer w r) r.point points
      → IsOpen w (answer w r) r.point (turn_points s points)
  keeps-IsOpen r s points hr hs h = elim (Bool-cases (r.point.id == s.point.id)) [
    | inl same ↦
        let e : r ≡ s = same_row st r s hr hs ((==_iff _ _).0 same) in
        subst (λ x. IsOpen w (answer w x) x.point (turn_points s points)) (sym e)
          (inr (
            show_read-same w (answer w s) s.point points
              (subst (λ x. IsOpen w (answer w x) x.point points) e h)))
    | inr other ↦
        let n : r.point.id ≢ s.point.id = ground arith in
        subst (λ o. (o ≡ some r.point) ⊎ (o ≡ some (point_after w (answer w r) r.point)))
          (sym (show_read-other w (answer w s) s.point r.point.id points n)) h
  ]

  answered : (s : Row) (a : CanAsk w st s) → ask_row w s a.known.0 ≡ answer w s
  answered s a = ap (λ o. ask_row w s (or_default o 0)) (sym a.known.1)

  turn :
      (s : Row) (rows : List Row) (results : List (Text × Value)) (points : List Point)
      → CanAsk w st s
      → read_rows w (s ∷ rows) results points
        ≡ read_rows w rows (turn_results s results) (turn_points s points)
  unfolding read_rows
  turn s rows results points a =
      let key = decimal s.point.id in
      simp (a.on, a.known.1)
        (ap
            (λ x.
              read_rows w rows (put key (show_read w x s.point points).0 results)
                (show_read w x s.point points).1)
            (answered s a)
          ∙ ap (λ v. read_rows w rows (put key v results) (turn_points s points))
              (show_read-value w (answer w s) s.point points))

  -- The rows of a loop are noted at its end, and so are those that were noted before it.
  pub record IsLoop (rows : List Row) (results : List (Text × Value)) (points : List Point)
      : Type 0 where
    pub results' : List (Text × Value)
    pub points' : List Point
    pub ends : read_rows w rows results points ≡ some (results', points')
    pub noted : All (λ r. IsNoted w r results' points') rows
    pub still : (r : Row) → IsRowOf st r → IsNoted w r results points → IsNoted w r results' points'

  All-IsOpen :
      (s : Row) (rows : List Row) (points : List Point)
      → CanAsk w st s
      → All (CanAsk w st) rows
      → All (λ r. IsOpen w (answer w r) r.point points) rows
      → All (λ r. IsOpen w (answer w r) r.point (turn_points s points)) rows
  All-IsOpen s [] points a h k = tt
  All-IsOpen s (r ∷ rows) points a (h, hs) (k, ks) =
      (keeps-IsOpen r s points h.its a.its k, All-IsOpen s rows points a hs ks)

  pub read_rows-IsLoop :
      (rows : List Row) (results : List (Text × Value)) (points : List Point)
      → All (CanAsk w st) rows
      → All (λ r. IsOpen w (answer w r) r.point points) rows
      → IsLoop rows results points
  unfolding read_rows
  read_rows-IsLoop [] results points h k = record {
    results' = results;
    points' = points;
    ends = refl;
    noted = tt;
    still = λ r _ n. n;
  }
  read_rows-IsLoop (s ∷ rows) results points (h, hs) (k, ks) =
      let rest =
        read_rows-IsLoop rows (turn_results s results) (turn_points s points) hs
          (All-IsOpen s rows points h hs ks) in
      record {
        results' = rest.results';
        points' = rest.points';
        ends = turn s rows results points h ∙ rest.ends;
        noted = (rest.still s h.its (turn-IsNoted s results points k), rest.noted);
        still = λ r i n. rest.still r i (keeps-IsNoted r s results points i h.its n);
      }

  pub IsRowOf-single :
      (r : Row)
      → CanAsk w st r
      → read_single_point_live w r.point.id st
        ≡ some (record st { points = turn_points r st.points }, some (shown w r))
  unfolding read_single_point_live
  IsRowOf-single r a =
      rw (a.its, read_single_point_live, a.known.1)
        (ap
            (λ x. some (
              record st { points = (show_read w x r.point st.points).1 },
              some (show_read w x r.point st.points).0,
            ))
            (answered r a)
          ∙ ap (λ v. some (record st { points = turn_points r st.points }, some v))
              (show_read-value w (answer w r) r.point st.points))
