-- ===== src/Graph/Cycles/Found.antt =====
-- What `detect_cycles` finds.
use cga.Prelude.{
  ℕ, zero, suc, ◌≤◌, ◌≡◌, refl, sym, ap, ◌∙◌, inl, inr, Bool, true, false, ◌&&◌, ◌||◌, not, Option,
  some, List, [], ◌∷◌, ◌++◌, arith, Bool-cases, length, All,
}
use cga.Text.{Text, text_eq, text_eq_refl, text_eq_sound, text_eq_comm, has_text, has_text-snoc}
use cga.Graph.Calls.{CallGraph, others_of, calls, IsClosed}
use cga.Graph.Cycles.{
  Search, but_last, enter, leave, then_visit, leave_some, dfs, start_at, start_all, no_search,
  cycles_of, detect_cycles,
}
use cga.Graph.Cycles.Walks.{
  has_text-without, but_last-snoc, left, left_le, left_lt, left-length, walks, IsCycle, Inv,
  Returned, no-IsCycle,
}
use cga.Graph.Cycles.Visits.{Searches, visit_idle, covered, visit_all_lem}

module _ (g : CallGraph) (closed : IsClosed g) where
  left_of :
      (s : Search) (node : Text) (fuel : ℕ)
      → has_text g.all_symbols node ≡ true
      → has_text s.visited node ≡ false
      → left g.all_symbols s.visited ≤ suc fuel
      → left g.all_symbols (node ∷ s.visited) ≤ fuel
  left_of s node fuel m new enough =
      omega (arith, left_lt g.all_symbols s.visited node m new, enough)

  entered :
      (node : Text) (p done : List Text) (s : Search)
      → Inv g p done s
      → has_text s.visited node ≡ false
      → Inv g (p ++ node ∷ []) done (enter node s)
  unfolding has_text
  entered node p done s v new = record {
    at = ap (λ q. q ++ node ∷ []) v.at;
    stack = λ t. ground (arith, v.stack t, has_text-snoc p node t);
    seen = λ t. ground (arith, v.seen t, has_text-snoc p node t);
    apart = λ t h. elim (Bool-cases (text_eq node t)) [
      | inl e ↦ ap (has_text done) (sym (text_eq_sound node t e)) ∙ ground (arith, v.seen node, new)
      | inr e ↦ v.apart t (ground (arith, has_text-snoc p node t))
    ];
    sound = v.sound;
    order = v.order;
  }

  without :
      (node t : Text) (p : List Text)
      → has_text p node ≡ false
      → ((has_text p t || text_eq node t) && not (text_eq t node)) ≡ has_text p t
  without node t p h = elim (Bool-cases (text_eq t node)) [
    | inl e ↦ ground (arith, ap (has_text p) (text_eq_sound t node e))
    | inr e ↦ ground (arith, text_eq_comm t node)
  ]

  clash : (b : Bool) → b ≡ true → b ≡ false → ⊥
  clash b h k = ground arith

  left-Inv :
      (node : Text) (p over : List Text) (s : Search)
      → Inv g (p ++ node ∷ []) over s
      → has_text p node ≡ false
      → (s.cycles ≡ [] → (u : Text) → calls g node u ≡ true → has_text over u ≡ true)
      → Inv g p (node ∷ over) (leave node s)
  unfolding has_text
  left-Inv node p over s v fresh last = record {
    at = ap but_last v.at ∙ but_last-snoc p node;
    stack = λ t.
        has_text-without node s.rec_stack t
        ∙ ap (λ b. b && not (text_eq t node)) (v.stack t ∙ has_text-snoc p node t)
        ∙ without node t p fresh;
    seen = λ t. ground (arith, v.seen t, has_text-snoc p node t);
    apart = λ t h. elim (Bool-cases (text_eq node t)) [
      | inl e ↦
          absurd (clash (has_text p t) h (ap (has_text p) (sym (text_eq_sound node t e)) ∙ fresh))
      | inr e ↦ rw e (v.apart t (ground (arith, has_text-snoc p node t)))
    ];
    sound = v.sound;
    order = λ e. (
      v.apart node (ground (arith, has_text-snoc p node node, text_eq_refl node)),
      last e,
      v.order e,
    );
  }

  fresh_on :
      (node : Text) (p done : List Text) (s : Search)
      → Inv g p done s
      → has_text s.visited node ≡ false
      → has_text p node ≡ false
  fresh_on node p done s v new = ground (arith, v.seen node, new)

  dfs_step :
      (fuel : ℕ)
      → Searches g closed (dfs g fuel) fuel
      → Searches g closed (dfs g (suc fuel)) (suc fuel)
  unfolding dfs has_text calls
  dfs_step fuel searches node p done s v new w m enough =
      let s1 = enter node s in
      let r =
        visit_all_lem g closed (dfs g fuel) fuel searches p done node (others_of g.graph node) s1
          (entered node p done s v new) w (λ n h. h) (left_of s node fuel m new enough) in
      record {
        next = leave node r.next;
        over = node ∷ r.over;
        returns = ap (leave_some node) r.returns;
        inv =
            left-Inv node p r.over r.next r.inv (fresh_on node p done s v new)
              (λ e u c. r.covers e u c);
        grows = λ t h. ground (arith, r.grows t h);
        quiet = r.quiet;
        covers = λ e t h. ground (arith, h);
      }

  no_fuel : (f : Text → Search → Option Search) → Searches g closed f 0
  no_fuel f node p done s v new w m enough =
      absurd (none_left s node (left_lt g.all_symbols s.visited node m new) enough)
    where
      none_left :
          (s : Search) (node : Text)
          → suc (left g.all_symbols (node ∷ s.visited)) ≤ left g.all_symbols s.visited
          → left g.all_symbols s.visited ≤ 0
          → ⊥
      none_left s node h k = omega (arith, h, k)

  dfs_lem : (fuel : ℕ) → Searches g closed (dfs g fuel) fuel
  dfs_lem zero = no_fuel (dfs g zero)
  dfs_lem (suc fuel) = dfs_step fuel (dfs_lem fuel)

  start_at_lem :
      (n : Text) (done : List Text) (s : Search)
      → Inv g [] done s
      → has_text g.all_symbols n ≡ true
      → Returned g [] done s (n ∷ []) (start_at g n s)
  unfolding walks has_text
  start_at_lem n done s v m = elim (Bool-cases (has_text s.visited n)) [
    | inl here ↦
        rw (start_at, here)
          (visit_idle g closed (dfs g 0) 0 (no_fuel (dfs g 0)) [] done n s v here (v.stack n))
    | inr new ↦
        rw (start_at, new)
          (fresh_start (
            dfs_lem (length g.all_symbols) n [] done (record s { path = [] }) (rooted v) new refl m
              (omega (
                arith,
                left_le g.all_symbols [] s.visited (λ t h. ground (arith, h)),
                left-length g.all_symbols,
              ))))
  ]
    where
      rooted : Inv g [] done s → Inv g [] done (record s { path = [] })
      rooted v = record {
        at = refl;
        stack = v.stack;
        seen = v.seen;
        apart = v.apart;
        sound = v.sound;
        order = v.order;
      }

      fresh_start :
          Returned g [] done
            (record s { path = [] })
            (n ∷ [])
            (dfs g (length g.all_symbols) n (record s { path = [] }))
          → Returned g [] done s (n ∷ []) (dfs g (length g.all_symbols) n (record s { path = [] }))
      fresh_start r = record {
        next = r.next;
        over = r.over;
        returns = r.returns;
        inv = r.inv;
        grows = r.grows;
        quiet = r.quiet;
        covers = r.covers;
      }

  start_all_lem :
      (ns done : List Text) (s : Search)
      → Inv g [] done s
      → ((n : Text) → has_text ns n ≡ true → has_text g.all_symbols n ≡ true)
      → Returned g [] done s ns (start_all g ns s)
  unfolding start_all has_text
  start_all_lem [] done s v m = record {
    next = s;
    over = done;
    returns = refl;
    inv = v;
    grows = λ t h. h;
    quiet = λ e. e;
    covers = λ e t h. ground (arith, h);
  }
  start_all_lem (n ∷ ns) done s v m =
      let r = start_at_lem n done s v (m n (rw (text_eq_refl n) refl)) in
      let r' = start_all_lem ns r.over r.next r.inv (λ t h. m t (ground (arith, h))) in
      record {
        next = r'.next;
        over = r'.over;
        returns = ap (then_visit (start_all g ns)) r.returns ∙ r'.returns;
        inv = r'.inv;
        grows = λ t h. r'.grows t (r.grows t h);
        quiet = λ e. r.quiet (r'.quiet e);
        covers = λ e t h.
            covered g closed (dfs g 0) 0 (no_fuel (dfs g 0)) n ns t r.over r'.over h
              (r.covers (r'.quiet e) t) (r'.grows t) (r'.covers e t);
      }

  started : Returned g [] [] no_search g.all_symbols (start_all g g.all_symbols no_search)
  unfolding has_text
  started =
      start_all_lem g.all_symbols [] no_search
        (record {
          at = refl;
          stack = λ t. refl;
          seen = λ t. refl;
          apart = λ t h. ground (arith, h);
          sound = tt;
          order = λ e. tt;
        })
        (λ n h. h)

  -- When both ends of each call are symbols of the graph: the search for cycles returns; each list that it reports is a
  -- cycle; and when it reports none, there is none.
  pub detect_cycles_lem :
      (cs : List (List Text)) × (detect_cycles g ≡ some cs)
      × All (IsCycle g) cs
      × (cs ≡ [] → (c : List Text) → ¬ IsCycle g c)
  unfolding detect_cycles
  detect_cycles_lem =
      let r = started in
      (
        r.next.cycles,
        ap cycles_of r.returns,
        r.inv.sound,
        λ e c. no-IsCycle g r.over c (r.inv.order e) (λ a b h. r.covers e a (closed a b h).0),
      )
