-- ===== src/Notification/Laws.antt =====
-- Which events of an incident reach a human (src/aegis_services/notification/worker.py).
use aegis_project.Prelude.{
  ◌≡◌, refl, sym, ap, ◌∙◌, String, Bool, true, false, List, [], ◌∷◌, ◌++◌, map, keep, str_eq, arith,
  if◌then◌else◌, Bool-cases, inl, inr,
}
use mathlib.Core.List.{append_assoc, append-nil}
use aegis_project.Events.{IncidentEvent}
use aegis_project.Notification.{Channel, Sinks, is_paging, page_text, log_line, post, handle}

module _ (channel : Channel) {D : Type 0} where
  abbrev pub handle_all : List (IncidentEvent D) → Sinks → Sinks
  handle_all [] s = s
  handle_all (e ∷ es) s = handle_all es (handle channel e s)

  abbrev pub is_page : IncidentEvent D → Bool
  is_page e = is_paging e.event_type

  handle-log :
      (e : IncidentEvent D) (s : Sinks)
      → (handle channel e s).log ≡ s.log ++ log_line channel e ∷ []
  unfolding handle post
  handle-log e s = ground arith

  handle-posted :
      (e : IncidentEvent D) (s : Sinks)
      → str_eq channel.webhook "" ≡ false
      → ((text : String) → channel.delivers text ≡ true)
      → (handle channel e s).posted
        ≡ (if is_page e then s.posted ++ page_text channel e ∷ [] else s.posted)
  unfolding handle post
  handle-posted e s hw hd = ground (arith, hd (page_text channel e))

  abbrev pages : List (IncidentEvent D) → List String
  pages es = map (λ e. page_text channel e) (keep is_page es)

  page_first :
      (e : IncidentEvent D) (es : List (IncidentEvent D)) (posted : List String)
      → (if is_page e then posted ++ page_text channel e ∷ [] else posted) ++ pages es
        ≡ posted ++ pages (e ∷ es)
  page_first e es posted = elim (Bool-cases (is_page e)) [
    | inl p ↦ rw p (append_assoc posted (page_text channel e ∷ []) (pages es))
    | inr p ↦ rw p refl
  ]

  -- With a webhook that takes every post, a sequence of events is logged whole, one line for each
  -- event in order, and posts exactly the texts of the events that are opened, escalated, resolved
  -- or plan proposed, in order.
  pub handle_all-pages :
      (es : List (IncidentEvent D)) (s : Sinks)
      → str_eq channel.webhook "" ≡ false
      → ((text : String) → channel.delivers text ≡ true)
      → ((handle_all es s).log ≡ s.log ++ map (λ e. log_line channel e) es)
        × ((handle_all es s).posted ≡ s.posted ++ map (λ e. page_text channel e) (keep is_page es))
  handle_all-pages [] s hw hd = (sym (append-nil s.log), sym (append-nil s.posted))
  handle_all-pages (e ∷ es) s hw hd =
      let (logged, posted) = handle_all-pages es (handle channel e s) hw hd in
      (
        logged
            ∙ ap (λ r. r ++ map (λ x. log_line channel x) es) (handle-log e s)
            ∙ append_assoc s.log (log_line channel e ∷ []) (map (λ x. log_line channel x) es),
        posted ∙ ap (λ r. r ++ pages es) (handle-posted e s hw hd) ∙ page_first e es s.posted,
      )
