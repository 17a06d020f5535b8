-- ===== src/Graph/Cycles/Visits.antt =====
-- What the visits of the neighbours of a symbol do, when the search below them does what it should.
use cga.Prelude.{
  ℕ, ◌≤◌, ◌≡◌, refl, sym, ap, ◌∙◌, inl, inr, true, false, ◌||◌, Option, some, List, [], ◌∷◌, ◌++◌,
  arith, Bool-cases, All,
}
use cga.Text.{Text, text_eq, text_eq_refl, text_eq_sound, has_text}
use cga.Graph.Calls.{CallGraph, calls, IsClosed}
use cga.Graph.Cycles.{Search, from_first, report_cycle, visit, then_visit, visit_all}
use cga.Graph.Cycles.Walks.{
  left, left_le, walks, IsCycle, walks-snoc, from_first-walks, Inv, Returned,
}

All-snoc :
    {A : Type 0} (P : A → Type 0) (xs : List A) (x : A) → All P xs → P x → All P (xs ++ x ∷ [])
All-snoc P [] x a h = (h, tt)
All-snoc P (y ∷ xs) x (k, a) h = (k, All-snoc P xs x a h)

snoc_full : {A : Type 0} (xs : List A) (x : A) → ¬ ((xs ++ x ∷ []) ≡ [])
snoc_full [] x e = cc
snoc_full (y ∷ xs) x e = cc

module _ (g : CallGraph) (closed : IsClosed g) where
  -- What a call of `dfs` does.
  abbrev pub Searches : (Text → Search → Option Search) → ℕ → Type 0
  Searches f fuel =
      (node : Text) (p done : List Text) (s : Search)
      → Inv g p done s
      → has_text s.visited node ≡ false
      → walks g (p ++ node ∷ []) ≡ true
      → has_text g.all_symbols node ≡ true
      → left g.all_symbols s.visited ≤ fuel
      → Returned g p done s (node ∷ []) (f node s)

  module _ (f : Text → Search → Option Search) (fuel : ℕ) (searches : Searches f fuel) where
    visit_found :
        (p done : List Text) (x n : Text) (s : Search)
        → Inv g (p ++ x ∷ []) done s
        → walks g (p ++ x ∷ []) ≡ true
        → calls g x n ≡ true
        → has_text s.rec_stack n ≡ true
        → Returned g (p ++ x ∷ []) done s (n ∷ []) (report_cycle s (from_first n s.path))
    visit_found p done x n s v w c on =
        let q = p ++ x ∷ [] in
        let (r, found, walk) =
          from_first-walks g n q (n ∷ []) (sym (v.stack n) ∙ on) (walks-snoc g p x n w c) in
        record {
          next = record s { cycles = s.cycles ++ (n ∷ r) ∷ [] };
          over = done;
          returns = ap (report_cycle s) (ap (from_first n) v.at ∙ found);
          inv = record {
            at = v.at;
            stack = v.stack;
            seen = v.seen;
            apart = v.apart;
            sound = All-snoc (IsCycle g) s.cycles (n ∷ r) v.sound walk;
            order = λ e. absurd (snoc_full s.cycles (n ∷ r) e);
          };
          grows = λ t h. h;
          quiet = λ e. absurd (snoc_full s.cycles (n ∷ r) e);
          covers = λ e. absurd (snoc_full s.cycles (n ∷ r) e);
        }

    only :
        (n t : Text) (ts : List Text)
        → has_text (n ∷ []) t ≡ true
        → has_text ts n ≡ true
        → has_text ts t ≡ true
    unfolding has_text
    only n t ts h k = ap (has_text ts) (sym (text_eq_sound n t (ground arith))) ∙ k

    pub visit_idle :
        (q done : List Text) (n : Text) (s : Search)
        → Inv g q done s
        → has_text s.visited n ≡ true
        → has_text s.rec_stack n ≡ false
        → Returned g q done s (n ∷ []) (some s)
    visit_idle q done n s v here off = record {
      next = s;
      over = done;
      returns = refl;
      inv = v;
      grows = λ t h. h;
      quiet = λ e. e;
      covers = λ e t h. only n t done h (ground (arith, v.seen n, v.stack n, here, off));
    }

    visit_lem :
        (p done : List Text) (x n : Text) (s : Search)
        → Inv g (p ++ x ∷ []) done s
        → walks g (p ++ x ∷ []) ≡ true
        → calls g x n ≡ true
        → left g.all_symbols s.visited ≤ fuel
        → Returned g (p ++ x ∷ []) done s (n ∷ []) (visit f n s)
    unfolding visit
    visit_lem p done x n s v w c enough = elim (Bool-cases (has_text s.visited n)) [
      | inl here ↦ elim (Bool-cases (has_text s.rec_stack n)) [
        | inl on ↦ rw (visit, here, on) (visit_found p done x n s v w c on)
        | inr off ↦ rw (visit, here, off) (visit_idle (p ++ x ∷ []) done n s v here off)
      ]
      | inr new ↦
          rw (visit, new)
            (searches n (p ++ x ∷ []) done s v new (walks-snoc g p x n w c) (closed x n c).1 enough)
    ]

    visited_grows :
        (q done : List Text) (s : Search) (ns : List Text) (o : Option Search)
        → Inv g q done s
        → (r : Returned g q done s ns o)
        → left g.all_symbols r.next.visited ≤ left g.all_symbols s.visited
    visited_grows q done s ns o v r =
        left_le g.all_symbols s.visited r.next.visited
          (λ t h. ground (arith, v.seen t, r.inv.seen t, r.grows t, h))

    pub covered :
        (n : Text) (ns : List Text) (t : Text) (a b : List Text)
        → (text_eq n t || has_text ns t) ≡ true
        → (has_text (n ∷ []) t ≡ true → has_text a t ≡ true)
        → (has_text a t ≡ true → has_text b t ≡ true)
        → (has_text ns t ≡ true → has_text b t ≡ true)
        → has_text b t ≡ true
    unfolding has_text
    covered n ns t a b h first grows rest = elim (Bool-cases (text_eq n t)) [
      | inl q ↦ grows (first (rw q refl))
      | inr q ↦ rest (ground arith)
    ]

    pub visit_all_lem :
        (p done : List Text) (x : Text) (ns : List Text) (s : Search)
        → Inv g (p ++ x ∷ []) done s
        → walks g (p ++ x ∷ []) ≡ true
        → ((n : Text) → has_text ns n ≡ true → calls g x n ≡ true)
        → left g.all_symbols s.visited ≤ fuel
        → Returned g (p ++ x ∷ []) done s ns (visit_all f ns s)
    unfolding visit_all has_text
    visit_all_lem p done x [] s v w c enough = record {
      next = s;
      over = done;
      returns = refl;
      inv = v;
      grows = λ t h. h;
      quiet = λ e. e;
      covers = λ e t h. ground (arith, h);
    }
    visit_all_lem p done x (n ∷ ns) s v w c enough =
        let r = visit_lem p done x n s v w (c n (rw (text_eq_refl n) refl)) enough in
        let q = p ++ x ∷ [] in
        let r' =
          visit_all_lem p r.over x ns r.next r.inv w (λ m h. c m (ground (arith, h)))
            (omega (arith, enough, visited_grows q done s (n ∷ []) (visit f n s) v r)) in
        record {
          next = r'.next;
          over = r'.over;
          returns = ap (then_visit (visit_all f ns)) r.returns ∙ r'.returns;
          inv = r'.inv;
          grows = λ t h. r'.grows t (r.grows t h);
          quiet = λ e. r.quiet (r'.quiet e);
          covers = λ e t h.
              covered n ns t r.over r'.over h (r.covers (r'.quiet e) t) (r'.grows t)
                (r'.covers e t);
        }
