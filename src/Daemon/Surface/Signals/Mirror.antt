-- ===== src/Daemon/Surface/Signals/Mirror.antt =====
-- A client that follows the signals holds the state.
use one_drive_hydration.Prelude.{
  bool_eq, ℕ, ◌≡◌, refl, ◌∙◌, ap, Bool, true, false, not, List, [], ◌∷◌, ◌++◌, ◌==◌, arith,
}
use one_drive_hydration.Text.{Text, text_eq-eq}
use one_drive_hydration.Text.FilePath.{texts_eq}
use one_drive_hydration.Daemon.Bus.{DaemonState}
use one_drive_hydration.Daemon.Surface.Signals.{
  Signal, daemon_running_changed, indexing_changed, index_changed, unsent_changed, excluded_changed,
  exposures_changed, downloading_changed, download_changed, uploading_changed,
  active_uploads_changed, state_changed, when, publish_state,
}

-- A client of the properties.
unfoldable pub set_property : Signal → DaemonState → DaemonState
set_property (daemon_running_changed b) s = record s { daemon_running = b }
set_property (unsent_changed n) s = record s { unsent = n }
set_property (excluded_changed n) s = record s { excluded = n }
set_property (exposures_changed n) s = record s { exposures = n }
set_property (downloading_changed n) s = record s { downloading = n }
set_property (indexing_changed b) s = record s { indexing = b }
set_property (uploading_changed paths) s = record s { uploading = paths }
set_property _ s = s

-- A client of the interface's own signals.
unfoldable pub hear : Signal → DaemonState → DaemonState
hear (state_changed running unsent excluded exposures) s = record s {
  daemon_running = running;
  unsent = unsent;
  excluded = excluded;
  exposures = exposures;
}
hear (download_changed n) s = record s { downloading = n }
hear (index_changed b) s = record s { indexing = b }
hear (active_uploads_changed paths) s = record s { uploading = paths }
hear _ s = s

unfoldable pub follow :
    (Signal → DaemonState → DaemonState) → List Signal → DaemonState → DaemonState
follow client [] s = s
follow client (signal ∷ signals) s = follow client signals (client signal s)

bool_eq-eq : (a b : Bool) → not (bool_eq a b) ≡ false → a ≡ b
bool_eq-eq a b h = ground arith

number_eq-eq : (a b : ℕ) → not (a == b) ≡ false → a ≡ b
number_eq-eq a b h = ground arith

texts_eq-eq : (a b : List Text) → not (texts_eq a b) ≡ false → a ≡ b
unfolding texts_eq
texts_eq-eq [] [] h = refl
texts_eq-eq [] (t ∷ b) h = cc
texts_eq-eq (s ∷ a) [] h = cc
texts_eq-eq (s ∷ a) (t ∷ b) h = ground (arith, text_eq-eq s t, texts_eq-eq a b)

module _ (client : Signal → DaemonState → DaemonState) where
  -- A signal that is sent when something changed leads to the same state as always sending it.
  follow-when :
      (b : Bool) (signal : Signal) (signals : List Signal) (s s' : DaemonState)
      → client signal s ≡ s'
      → (b ≡ false → s ≡ s')
      → follow client (when b signal ++ signals) s ≡ follow client signals s'
  unfolding follow
  follow-when true signal signals s s' sets stays = ap (follow client signals) sets
  follow-when false signal signals s s' sets stays = ap (follow client signals) (stays refl)

  follow-cons :
      (signal : Signal) (signals : List Signal) (s : DaemonState)
      → follow client (signal ∷ signals) s ≡ follow client signals (client signal s)
  unfolding follow
  follow-cons signal signals s = refl

  follow-last :
      (b : Bool) (signal : Signal) (s s' : DaemonState)
      → client signal s ≡ s'
      → (b ≡ false → s ≡ s')
      → follow client (when b signal) s ≡ s'
  unfolding follow
  follow-last true signal s s' sets stays = sets
  follow-last false signal s s' sets stays = stays refl

  -- A signal that the client does not heed.
  follow-deaf :
      (b : Bool) (signal : Signal) (signals : List Signal) (s : DaemonState)
      → client signal s ≡ s
      → follow client (when b signal ++ signals) s ≡ follow client signals s
  follow-deaf b signal signals s deaf = follow-when b signal signals s s deaf (λ e. refl)

-- The changes of the properties.
follow-publish_state :
    (previous state : DaemonState)
    → follow set_property (publish_state previous state) previous ≡ state
unfolding publish_state set_property
follow-publish_state previous state =
    let s1 : DaemonState = record previous { daemon_running = state.daemon_running } in
    let s2 : DaemonState = record s1 { unsent = state.unsent } in
    let s3 : DaemonState = record s2 { excluded = state.excluded } in
    let s4 : DaemonState = record s3 { exposures = state.exposures } in
    let s5 : DaemonState = record s4 { downloading = state.downloading } in
    let s6 : DaemonState = record s5 { indexing = state.indexing } in
    follow-when set_property (not (bool_eq previous.daemon_running state.daemon_running))
      (daemon_running_changed state.daemon_running) _ previous s1 refl
      (λ e. ap (λ b. record previous { daemon_running = b }) (bool_eq-eq _ _ e))
    ∙ follow-when set_property (not (previous.unsent == state.unsent)) (unsent_changed state.unsent)
        _ s1 s2 refl (λ e. ap (λ n. record s1 { unsent = n }) (number_eq-eq _ _ e))
    ∙ follow-when set_property (not (previous.excluded == state.excluded))
        (excluded_changed state.excluded) _ s2 s3 refl
        (λ e. ap (λ n. record s2 { excluded = n }) (number_eq-eq _ _ e))
    ∙ follow-when set_property (not (previous.exposures == state.exposures))
        (exposures_changed state.exposures) _ s3 s4 refl
        (λ e. ap (λ n. record s3 { exposures = n }) (number_eq-eq _ _ e))
    ∙ follow-when set_property (not (previous.downloading == state.downloading))
        (downloading_changed state.downloading) _ s4 s5 refl
        (λ e. ap (λ n. record s4 { downloading = n }) (number_eq-eq _ _ e))
    ∙ follow-when set_property (not (bool_eq previous.indexing state.indexing))
        (indexing_changed state.indexing) _ s5 s6 refl
        (λ e. ap (λ b. record s5 { indexing = b }) (bool_eq-eq _ _ e))
    ∙ follow-when set_property (not (texts_eq previous.uploading state.uploading))
        (uploading_changed state.uploading) _ s6 state refl
        (λ e. ap (λ paths. record s6 { uploading = paths }) (texts_eq-eq _ _ e))
    ∙ follow-cons set_property
        (state_changed state.daemon_running state.unsent state.excluded state.exposures) _ state
    ∙ follow-deaf set_property (not (previous.downloading == state.downloading))
        (download_changed state.downloading) _ state refl
    ∙ follow-deaf set_property (not (bool_eq previous.indexing state.indexing))
        (index_changed state.indexing) _ state refl
    ∙ follow-last set_property (not (texts_eq previous.uploading state.uploading))
        (active_uploads_changed state.uploading) state state refl (λ e. refl)

-- The same for the signals of the interface.
hear-publish_state :
    (previous state : DaemonState) → follow hear (publish_state previous state) previous ≡ state
unfolding publish_state hear
hear-publish_state previous state =
    let s4 : DaemonState = record previous {
      daemon_running = state.daemon_running;
      unsent = state.unsent;
      excluded = state.excluded;
      exposures = state.exposures;
    } in
    let s5 : DaemonState = record s4 { downloading = state.downloading } in
    let s6 : DaemonState = record s5 { indexing = state.indexing } in
    follow-deaf hear (not (bool_eq previous.daemon_running state.daemon_running))
      (daemon_running_changed state.daemon_running) _ previous refl
    ∙ follow-deaf hear (not (previous.unsent == state.unsent)) (unsent_changed state.unsent) _
        previous refl
    ∙ follow-deaf hear (not (previous.excluded == state.excluded)) (excluded_changed state.excluded)
        _ previous refl
    ∙ follow-deaf hear (not (previous.exposures == state.exposures))
        (exposures_changed state.exposures) _ previous refl
    ∙ follow-deaf hear (not (previous.downloading == state.downloading))
        (downloading_changed state.downloading) _ previous refl
    ∙ follow-deaf hear (not (bool_eq previous.indexing state.indexing))
        (indexing_changed state.indexing) _ previous refl
    ∙ follow-deaf hear (not (texts_eq previous.uploading state.uploading))
        (uploading_changed state.uploading) _ previous refl
    ∙ follow-cons hear
        (state_changed state.daemon_running state.unsent state.excluded state.exposures) _ previous
    ∙ follow-when hear (not (previous.downloading == state.downloading))
        (download_changed state.downloading) _ s4 s5 refl
        (λ e. ap (λ n. record s4 { downloading = n }) (number_eq-eq _ _ e))
    ∙ follow-when hear (not (bool_eq previous.indexing state.indexing))
        (index_changed state.indexing) _ s5 s6 refl
        (λ e. ap (λ b. record s5 { indexing = b }) (bool_eq-eq _ _ e))
    ∙ follow-last hear (not (texts_eq previous.uploading state.uploading))
        (active_uploads_changed state.uploading) s6 state refl
        (λ e. ap (λ paths. record s6 { uploading = paths }) (texts_eq-eq _ _ e))

-- A client that holds the old state holds the new one after the signals of `publish_state`, whether it
-- follows the changes of the properties or the signals of the interface.
pub publish_state-followed :
    (previous state : DaemonState)
    → (follow set_property (publish_state previous state) previous ≡ state)
      × (follow hear (publish_state previous state) previous ≡ state)
publish_state-followed previous state =
    (follow-publish_state previous state, hear-publish_state previous state)
