-- ===== src/Net/Spool/Delivery.antt =====
-- What a drain of the spool delivers, keeps and loses.
use ree0x_q.Base.{
  ℕ, ◌+◌, Bool, true, false, String, Option, none, some, List, [], ◌∷◌, ◌++◌, map, length,
  if◌then◌else◌, is_blank, ◌≡◌, refl, sym, ap, ◌∙◌, arith, All, Bool-cases, inl, inr,
}
use mathlib.Core.List.{append_assoc, append-nil}
use ree0x_q.Core.{CryptoInventoryEvent}
use ree0x_q.Net.Spool.{
  Lines, Spool, DrainStats, Draining, start, see, deliver, append, retain, drain_parsed, drain_line,
  drain_lines, replaced, drain_file, drain,
}

-- Every line that is not blank is delivered, retained or dropped as corrupt.
abbrev pub IsBalanced : DrainStats → Type 0
IsBalanced st = st.seen ≡ st.delivered + st.retained + st.corrupt_dropped

module _ (to_string : CryptoInventoryEvent → String)
    (from_str : String → Option CryptoInventoryEvent) (emit : ℕ → CryptoInventoryEvent → Bool) where
  drain_parsed-IsBalanced :
      (d : Draining) (o : Option CryptoInventoryEvent)
      → IsBalanced d.stats
      → IsBalanced (drain_parsed to_string from_str emit (see d) o).stats
  drain_parsed-IsBalanced d none h = omega (arith, h)
  drain_parsed-IsBalanced d (some ev) h =
      elim (Bool-cases (emit (d.stats.delivered + d.stats.retained) ev)) [
        | inl sent ↦ rw sent (omega (arith, h))
        | inr failed ↦ rw failed (omega (arith, h))
      ]

  drain_line-IsBalanced :
      (d : Draining) (line : String)
      → IsBalanced d.stats
      → IsBalanced (drain_line to_string from_str emit d line).stats
  drain_line-IsBalanced d line h = elim (Bool-cases (is_blank line)) [
    | inl blank ↦ rw blank h
    | inr text ↦ rw text (drain_parsed-IsBalanced d (from_str line) h)
  ]

  drain_lines-IsBalanced :
      (d : Draining) (ls : Lines)
      → IsBalanced d.stats
      → IsBalanced (drain_lines to_string from_str emit d ls).stats
  unfolding drain_lines
  drain_lines-IsBalanced d [] h = h
  drain_lines-IsBalanced d (none ∷ ls) h = h
  drain_lines-IsBalanced d (some line ∷ ls) h =
      drain_lines-IsBalanced (drain_line to_string from_str emit d line) ls
        (drain_line-IsBalanced d line h)

  drain_file-IsBalanced :
      (file : Option Lines) → IsBalanced (drain_file to_string from_str emit file).1.stats
  drain_file-IsBalanced none = omega arith
  drain_file-IsBalanced (some ls) = drain_lines-IsBalanced start ls (omega arith)

  -- The statistics of a drain add up: the lines seen are those delivered, those retained and those
  -- dropped as corrupt, whatever the file holds and however `emit` answers.
  pub drain-IsBalanced : (s : Spool) → IsBalanced (drain to_string from_str emit s).1.stats
  unfolding drain
  drain-IsBalanced s = drain_file-IsBalanced s.file

  -- The events whose call of `emit` succeeds, and the others; the calls are counted from `i`.
  abbrev pub sent : ℕ → List CryptoInventoryEvent → List CryptoInventoryEvent
  sent i [] = []
  sent i (ev ∷ evs) = if emit i ev then ev ∷ sent (i + 1) evs else sent (i + 1) evs

  abbrev pub unsent : ℕ → List CryptoInventoryEvent → List CryptoInventoryEvent
  unsent i [] = []
  unsent i (ev ∷ evs) = if emit i ev then unsent (i + 1) evs else ev ∷ unsent (i + 1) evs

  abbrev pub spooled : List CryptoInventoryEvent → Lines
  spooled = map (λ ev. some (to_string ev))

  abbrev pub append_all : Spool → List CryptoInventoryEvent → Spool
  append_all s [] = s
  append_all s (ev ∷ evs) = append_all (append to_string from_str emit s ev) evs

  append_all-spooled :
      (ls : Lines) (evs : List CryptoInventoryEvent)
      → append_all (record { file = some ls }) evs ≡ record { file = some (ls ++ spooled evs) }
  unfolding append
  append_all-spooled ls [] = ap (λ x. record { file = some x }) (sym (append-nil ls))
  append_all-spooled ls (ev ∷ evs) =
      append_all-spooled (ls ++ some (to_string ev) ∷ []) evs
      ∙ ap (λ x. record { file = some x })
          (append_assoc ls (some (to_string ev) ∷ []) (spooled evs))

  -- What a drain of spooled events adds to the state.
  pub record Added (d d' : Draining) (i : ℕ) (evs : List CryptoInventoryEvent) : Type 0 where
    pub taken : d'.taken ≡ d.taken ++ sent i evs
    pub kept : d'.kept_lines ≡ d.kept_lines ++ spooled (unsent i evs)
    pub retained : d'.stats.retained ≡ d.stats.retained + length (unsent i evs)

  -- The JSON library reads back what it writes, and writes no blank line.
  abbrev pub Faithful : CryptoInventoryEvent → Type 0
  Faithful ev = (from_str (to_string ev) ≡ some ev) × (is_blank (to_string ev) ≡ false)

  drain_lines-Added :
      (d : Draining) (i : ℕ) (evs : List CryptoInventoryEvent)
      → i ≡ d.stats.delivered + d.stats.retained
      → All Faithful evs
      → Added d (drain_lines to_string from_str emit d (spooled evs)) i evs
  unfolding drain_lines
  drain_lines-Added d i [] count f = record {
    taken = sym (append-nil d.taken);
    kept = sym (append-nil d.kept_lines);
    retained = omega arith;
  }
  drain_lines-Added d i (ev ∷ evs) count f = elim (Bool-cases (emit i ev)) [
    | inl success ↦
        let next = deliver (see d) ev in
        let answer : emit (d.stats.delivered + d.stats.retained) ev ≡ true = rw count at success in
        let one : drain_line to_string from_str emit d (to_string ev) ≡ next =
          rw (f.0.0, f.0.1, answer) refl in
        let whole = ap (λ x. drain_lines to_string from_str emit x (spooled evs)) one in
        let r = drain_lines-Added next (i + 1) evs (omega (arith, count)) f.1 in
        record {
          taken = rw (whole, success) (r.taken ∙ append_assoc d.taken (ev ∷ []) (sent (i + 1) evs));
          kept = rw (whole, success) r.kept;
          retained = rw (whole, success) r.retained;
        }
    | inr failed ↦
        let next = retain to_string from_str emit (see d) ev in
        let answer : emit (d.stats.delivered + d.stats.retained) ev ≡ false = rw count at failed in
        let one : drain_line to_string from_str emit d (to_string ev) ≡ next =
          rw (f.0.0, f.0.1, answer) refl in
        let whole = ap (λ x. drain_lines to_string from_str emit x (spooled evs)) one in
        let r = drain_lines-Added next (i + 1) evs (omega (arith, count)) f.1 in
        record {
          taken = rw (whole, failed) r.taken;
          kept =
              rw (whole, failed)
                (r.kept
                  ∙ append_assoc d.kept_lines (some (to_string ev) ∷ [])
                      (spooled (unsent (i + 1) evs)));
          retained = rw (whole, failed) (omega (arith, r.retained));
        }
  ]

  pub remaining_file : List CryptoInventoryEvent → Option Lines
  remaining_file [] = none
  remaining_file (ev ∷ evs) = some (spooled (ev ∷ evs))

  replaced-Added :
      (d : Draining) (kept : List CryptoInventoryEvent)
      → d.kept_lines ≡ spooled kept
      → d.stats.retained ≡ length kept
      → (replaced to_string from_str emit d).file ≡ remaining_file kept
  unfolding remaining_file
  replaced-Added d [] lines count = rw count refl
  replaced-Added d (ev ∷ evs) lines count = rw (count, lines) (ground arith)

  -- Events that are appended to a spool with no lines and then drained: `emit` takes exactly those
  -- for which its call succeeds, in order, and the file keeps exactly the others, in order; it is
  -- removed if there are none. The JSON library has to read back each event that it writes, from a
  -- line that is not blank.
  pub append-drain :
      (evs : List CryptoInventoryEvent)
      → All Faithful evs
      → ((drain to_string from_str emit (append_all (record { file = some [] }) evs)).1.taken
          ≡ sent 0 evs)
        × ((drain to_string from_str emit (append_all (record { file = some [] }) evs)).0.file
            ≡ remaining_file (unsent 0 evs))
  unfolding drain
  append-drain evs f =
      let r = drain_lines-Added start 0 evs (omega arith) f in
      rw (append_all-spooled [] evs) (
        r.taken,
        replaced-Added (drain_lines to_string from_str emit start (spooled evs)) (unsent 0 evs)
            r.kept (omega (arith, r.retained)),
      )

  drain_lines-unreadable :
      (d : Draining) (before after : Lines)
      → drain_lines to_string from_str emit d (before ++ none ∷ after)
        ≡ drain_lines to_string from_str emit d before
  unfolding drain_lines
  drain_lines-unreadable d [] after = refl
  drain_lines-unreadable d (none ∷ before) after = refl
  drain_lines-unreadable d (some line ∷ before) after =
      drain_lines-unreadable (drain_line to_string from_str emit d line) before after

  -- A line that cannot be read loses it and every line behind it: the drain delivers, counts and
  -- leaves in the file what it does when the file ends before that line.
  pub drain-unreadable :
      (before after : Lines)
      → drain to_string from_str emit (record { file = some (before ++ none ∷ after) })
        ≡ drain to_string from_str emit (record { file = some before })
  unfolding drain
  drain-unreadable before after =
      ap (λ d. (replaced to_string from_str emit d, d)) (drain_lines-unreadable start before after)
