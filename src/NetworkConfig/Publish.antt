-- ===== src/NetworkConfig/Publish.antt =====
-- The publication of the routes of the shortcuts.
use mathlib.Core.Bool.{false≢true}
use mathlib.Core.Option.{some-injective, none-ne-some}
use mathlib.Core.List.{append_assoc}
use mathlib.Core.Path.{subst}
use rpinode.NetworkConfig.{
  World, Exit, exited, raised, Net, Effect, command, sync_routes, same_routes, did, advertise,
  is_published, note_routes, sync_published, published, publish_tailscale_routes,
}
use rpinode.Text.{Text}
use rpinode.Text.Contains.{text_eq_iff}
use rpinode.Prelude.{
  ℕ, zero, suc, ◌≡◌, ◌≢◌, ◌⊎◌, inl, inr, refl, sym, ap, ◌∙◌, Bool, true, false, ◌&&◌, not, Option,
  none, some, List, [], ◌∷◌, ◌++◌, arith, Bool-cases,
}

same_routes_refl : (ss : List Text) → same_routes ss ss ≡ true
unfolding same_routes
same_routes_refl [] = refl
same_routes_refl (s ∷ ss) = rw ((text_eq_iff s s).1 refl) (same_routes_refl ss)

-- The command is good, and so is the fleet where the enrolment is active.
pub record HasSuccess (w : World) : Type 0 where
  pub message : Text
  pub good : w.run (advertise w.routes) ≡ exited 0 message
  pub taken :
      (w.headscale_active ≡ some false)
      ⊎ ((w.headscale_active ≡ some true) × (w.routes_synced ≡ some true))

-- How a publication can end.
pub data IsPublication (w : World) (force : Bool) (n : Net) : Net × Bool → Type 0 where
  -- The routes are those that were published last, and nothing is done.
  quiet : n.routes_published ≡ some w.routes → force ≡ false → IsPublication w force n (n, false)
  -- The routes are announced and noted.
  done :
      (effects : List Effect)
      → (n.routes_published ≢ some w.routes) ⊎ (force ≡ true)
      → HasSuccess w
      → IsPublication w force n (
        record {
          routes_published = some w.routes;
          effects = n.effects ++ command (advertise w.routes) ∷ effects;
        },
        false,
      )
  -- Without that success, the routes that are noted stay.
  failed :
      (effects : List Effect) (is_raised : Bool)
      → (n.routes_published ≢ some w.routes) ⊎ (force ≡ true)
      → ¬ HasSuccess w
      → IsPublication w force n
          (record n { effects = n.effects ++ command (advertise w.routes) ∷ effects }, is_raised)

same_routes_sound : (ss ts : List Text) → same_routes ss ts ≡ true → ss ≡ ts
unfolding same_routes
same_routes_sound [] [] h = refl
same_routes_sound [] (t ∷ ts) h = cc
same_routes_sound (s ∷ ss) [] h = cc
same_routes_sound (s ∷ ss) (t ∷ ts) h =
    let first : s ≡ t = (text_eq_iff s t).0 (ground arith) in
    let rest : ss ≡ ts = same_routes_sound ss ts (ground arith) in cc

-- What the early return lets pass.
news :
    (routes : List Text) (force : Bool) (o : Option (List Text))
    → (is_published routes o && not force) ≡ false
    → (o ≢ some routes) ⊎ (force ≡ true)
news routes true o h = inr refl
news routes false none h = inl (none-ne-some _)
news routes false (some old) h = inl (λ e.
    let same : old ≡ routes = some-injective _ _ e in
    let differ : same_routes routes old ≡ false = ground arith in
    false≢true (sym differ ∙ ap (same_routes routes) same ∙ same_routes_refl routes))

bad_exit : {message : Text} → raised ≢ exited 0 message
bad_exit e = cc

bad_code : {code : ℕ} {message other : Text} → exited (suc code) message ≢ exited 0 other
bad_code e = cc

module _ (w : World) (force : Bool) (n : Net) where
  told : Net
  told = did (command (advertise w.routes)) n

  -- One more effect after the command.
  then_did :
      (m : Net) (e : Effect)
      → m.effects ≡ n.effects ++ command (advertise w.routes) ∷ []
      → m.effects ++ e ∷ [] ≡ n.effects ++ command (advertise w.routes) ∷ e ∷ []
  then_did m e h =
      ap (λ (es : List Effect). es ++ e ∷ []) h
      ∙ append_assoc n.effects (command (advertise w.routes) ∷ []) (e ∷ [])

  -- Where the enrolment and the fleet do not allow it there is no success.
  no_success :
      ¬ (
        (w.headscale_active ≡ some false)
        ⊎ ((w.headscale_active ≡ some true) × (w.routes_synced ≡ some true)))
      → ¬ HasSuccess w
  no_success f h = f h.taken

  module _ (new : (n.routes_published ≢ some w.routes) ⊎ (force ≡ true)) where
    noted-IsPublication :
        (active synced : Option Bool) (message : Text)
        → w.run (advertise w.routes) ≡ exited 0 message
        → w.headscale_active ≡ active
        → w.routes_synced ≡ synced
        → IsPublication w force n (note_routes active synced w.routes told, false)
    unfolding told
    noted-IsPublication none synced message good a s =
        failed [] false new (no_success (λ h. ground arith))
    noted-IsPublication (some false) synced message good a s =
        done [] new (record { message = message; good = good; taken = inl a })
    noted-IsPublication (some true) (some true) message good a s =
        subst
          (λ (es : List Effect).
            IsPublication w force n
              (record { routes_published = some w.routes; effects = es }, false))
          (sym (then_did told (sync_routes w.routes) refl))
          (done (sync_routes w.routes ∷ []) new
            (record { message = message; good = good; taken = inr (a, s) }))
    noted-IsPublication (some true) (some false) message good a s =
        subst (λ (es : List Effect). IsPublication w force n (record n { effects = es }, false))
          (sym (then_did told (sync_routes w.routes) refl))
          (failed (sync_routes w.routes ∷ []) false new (no_success (λ h. ground arith)))
    noted-IsPublication (some true) none message good a s =
        subst (λ (es : List Effect). IsPublication w force n (record n { effects = es }, false))
          (sym (then_did told (sync_routes w.routes) refl))
          (failed (sync_routes w.routes ∷ []) false new (no_success (λ h. ground arith)))

    exit-IsPublication :
        (x : Exit) → w.run (advertise w.routes) ≡ x → IsPublication w force n (published w told x)
    unfolding told sync_published
    exit-IsPublication raised e = failed [] true new (λ h. bad_exit (sym e ∙ h.good))
    exit-IsPublication (exited zero message) e =
        noted-IsPublication w.headscale_active w.routes_synced message e refl refl
    exit-IsPublication (exited (suc code) message) e =
        failed [] false new (λ h. bad_code (sym e ∙ h.good))

  quiet-IsPublication :
      (o : Option (List Text))
      → n.routes_published ≡ o
      → (is_published w.routes o && not force) ≡ true
      → IsPublication w force n (n, false)
  quiet-IsPublication none e h = cc
  quiet-IsPublication (some old) e h =
      let same = same_routes_sound w.routes old (ground arith) in
      quiet (e ∙ ap some (sym same)) (ground arith)

  -- A publication does nothing, not raising, exactly when the routes are those that were published
  -- last and it is not forced. Else it announces them. They are then noted as published exactly if the command ended
  -- well and the fleet took them or the enrolment is not active; else what was noted stays.
  pub publish_tailscale_routes-IsPublication :
      IsPublication w force n (publish_tailscale_routes w force n)
  unfolding publish_tailscale_routes told
  publish_tailscale_routes-IsPublication =
      elim (Bool-cases (is_published w.routes n.routes_published && not force)) [
        | inl same ↦
            rw (same, publish_tailscale_routes) (quiet-IsPublication n.routes_published refl same)
        | inr other ↦
            rw (other, publish_tailscale_routes)
              (exit-IsPublication (news w.routes force n.routes_published other)
                (w.run (advertise w.routes)) refl)
      ]
