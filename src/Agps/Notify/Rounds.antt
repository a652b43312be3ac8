-- ===== src/Agps/Notify/Rounds.antt =====
-- The two shapes of `notifySubscribers`, and that its loop ends.
use device_samsung_msm8660_c.Common.{
  ℕ, zero, suc, ◌<◌, ◌≡◌, refl, sym, ap₂, ◌∙◌, true, false, not, none, some, List, [], ◌∷◌, arith,
  is_some, length, keep_if, Bool-cases, inl, inr,
}
use device_samsung_msm8660_c.LinkedList.Abstract
use device_samsung_msm8660_c.LinkedList.Abstract.{Search}
use device_samsung_msm8660_c.Agps.Types.{Subscriber, Notification, Call, Machine}
use device_samsung_msm8660_c.Agps.Notify.{
  notify_rsrc_status, notify_subscriber, delete_obj, notify_search, after_search, notify_rounds,
  notify_subscribers,
}
use device_samsung_msm8660_c.Agps.Notify.Told.{
  takes, tell_all, tell_all-after, notify-takes, notify-ignored,
}

-- Those that stay when the takers of a notification are taken out.
abbrev pub stay : Notification → List Subscriber → List Subscriber
stay n xs = keep_if (λ s. not (takes n s)) xs

-- One search of the deleting loop keeps what is still to be told and who is to stay.
record Round (m : Machine) (n : Notification) (xs : List Subscriber) (calls : List Call)
    (r : Search Subscriber (List Call)) : Type 0 where
  objects : stay n r.objects ≡ stay n xs
  told : tell_all m n r.objects r.world ≡ tell_all m n xs calls
  ended : is_some r.found ≡ false → (r.objects ≡ stay n xs) × (r.world ≡ tell_all m n xs calls)
  shrinks : is_some r.found ≡ true → suc (length r.objects) ≡ length xs

abbrev round_of :
    Machine → Notification → List Subscriber → List Call → Search Subscriber (List Call)
round_of m n xs calls = Abstract.search true (notify_subscriber m n) true delete_obj xs calls

round-cons_takes :
    (m : Machine) (n : Notification) (x : Subscriber) (xs : List Subscriber) (calls : List Call)
    → n.post_notify_delete ≡ true
    → takes n x ≡ true
    → round_of m n (x ∷ xs) calls
      ≡ record { found = some x; objects = xs; world = (notify_rsrc_status m n x calls).1 }
unfolding Abstract.search notify_subscriber
round-cons_takes m n x xs calls after t = rw (notify-takes m n x calls, t, after)

round-cons_ignores :
    (m : Machine) (n : Notification) (x : Subscriber) (xs : List Subscriber) (calls : List Call)
    → takes n x ≡ false
    → let r = round_of m n xs calls in
      round_of m n (x ∷ xs) calls
      ≡ record { found = r.found; objects = x ∷ r.objects; world = r.world }
unfolding Abstract.search notify_subscriber
round-cons_ignores m n x xs calls t = rw (notify-takes m n x calls, t, notify-ignored m n x calls t)

module _ (m : Machine) (n : Notification) (after : n.post_notify_delete ≡ true) where
  Round-ignores :
      (x : Subscriber) (xs : List Subscriber) (calls : List Call)
      (r : Search Subscriber (List Call))
      → takes n x ≡ false
      → Round m n xs calls r
      → Round m n
          (x ∷ xs)
          calls
          (record { found = r.found; objects = x ∷ r.objects; world = r.world })
  unfolding tell_all
  Round-ignores x xs calls r t h =
      ground (arith, notify-ignored m n x calls, notify-ignored m n x r.world)

  search-Round :
      (xs : List Subscriber) (calls : List Call) → Round m n xs calls (round_of m n xs calls)
  unfolding Abstract.search tell_all
  search-Round [] calls = ground arith
  search-Round (x ∷ xs) calls = elim (Bool-cases (takes n x)) [
    | inl t ↦
        rw (round-cons_takes m n x xs calls after t)
          (record { objects = rw t; told = refl; ended = λ e. cc; shrinks = λ e. refl })
    | inr t ↦
        rw (round-cons_ignores m n x xs calls t)
          (Round-ignores x xs calls _ t (search-Round xs calls))
  ]

module _ (m : Machine) (n : Notification) where
  -- The machine with these subscribers and calls, and the rest of it as in `m`.
  abbrev pub with_list : List Subscriber → List Call → Machine
  with_list xs calls = record m { subscribers = xs; calls = calls }

  abbrev pub told_from : List Subscriber → List Call → Machine
  told_from xs calls = with_list (stay n xs) (tell_all m n xs calls)

  rounds-told :
      (k : ℕ) (xs : List Subscriber) (calls : List Call)
      → n.post_notify_delete ≡ true
      → length xs < k
      → notify_rounds k (with_list xs calls) n ≡ told_from xs calls
  unfolding notify_rounds notify_search after_search
  rounds-told zero xs calls after fuel = absurd (omega arith)
  rounds-told (suc k) xs calls after fuel =
      let m' = with_list xs calls in
      let r = round_of m' n xs calls in
      let h = search-Round m' n after xs calls in
      let same = tell_all-after m n xs xs calls calls in
      elim (Bool-cases (is_some r.found)) [
        | inl more ↦ rw more (
            rounds-told k r.objects r.world after (omega (arith, h.shrinks more))
            ∙ ap₂ with_list h.objects
                (sym (tell_all-after m n xs r.objects calls r.world) ∙ h.told ∙ same))
        | inr done ↦ rw done (ap₂ with_list (h.ended done).0 ((h.ended done).1 ∙ same))
      ]

  -- A notification with deletion ends with every taker told once, in list order, and taken out.
  pub notify_subscribers-deletes :
      n.post_notify_delete ≡ true → notify_subscribers m n ≡ told_from m.subscribers m.calls
  unfolding notify_subscribers
  notify_subscribers-deletes after =
      simp after
        (rounds-told (suc (length m.subscribers)) m.subscribers m.calls after (omega arith))

  keeping-search :
      (xs : List Subscriber) (calls : List Call)
      → n.post_notify_delete ≡ false
      → Abstract.search false (notify_subscriber m n) false delete_obj xs calls
        ≡ record { found = none; objects = xs; world = tell_all m n xs calls }
  unfolding Abstract.search notify_subscriber tell_all
  keeping-search [] calls keep = refl
  keeping-search (x ∷ xs) calls keep =
      ground (arith, keeping-search xs (notify_rsrc_status m n x calls).1)

  -- A notification without deletion tells every taker once, in list order, and the list stays.
  pub notify_subscribers-keeps :
      n.post_notify_delete ≡ false
      → notify_subscribers m n ≡ with_list m.subscribers (tell_all m n m.subscribers m.calls)
  unfolding notify_subscribers notify_search after_search
  notify_subscribers-keeps keep = simp (keep, keeping-search m.subscribers m.calls keep)
