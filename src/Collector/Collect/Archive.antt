-- ===== src/Collector/Collect/Archive.antt =====
-- The archive of a collection, and the removal of what it holds: `zipDir` and the end of
-- `CollectLogsAndDump` of tools/log-collector/log_collector.go.
use Prim.Native.String
use tvk_plugins.Prelude.{String, Option, none, some, List, [], ◌∷◌, ◌++◌, ◌≡◌, refl, sym, ap, subst}
use tvk_plugins.Prelude.Lists.{All}
use tvk_plugins.Prelude.Tests.{if◌then◌else◌}
use tvk_plugins.Prelude.Text.Prefix.{Below-self, Below-append}
use tvk_plugins.Kube.Calls.{Error, ok}
use tvk_plugins.Action.Triple.{
  Triple, Triple-of_Keeps, Triple-pure, Triple-frame, Triple-if, Triple-bind, Triple-to,
}
use tvk_plugins.Collector.Objects.{LogCollector}
use tvk_plugins.Collector.Calls.{Call}
use tvk_plugins.Collector.Cluster.{WalkEntry, Cluster}
use tvk_plugins.Collector.Exec.{State, pure, raise, ask, ◌>>=◌, ◌>>◌, on_option}
use tvk_plugins.Collector.Exec.Keeps.{
  Keeps, Stable, Keeps-bind, Keeps-ask, Keeps-if, Keeps-pure, Triple-ask, keeps_rules,
}
use tvk_plugins.Collector.Files.{walker, walk_entries, remove_all, zip_dir}
use tvk_plugins.Collector.Footprint.{Every, Packed, Archived, CollectCall}

-- Any call may follow.
abbrev AnyCall : Call → Type 0
AnyCall c = Unit

module _ (p : Cluster) where
  Packed-later : (h : List Call) (c : Call) (e : WalkEntry) → Packed p h e → Packed p (c ∷ h) e
  Packed-later h c e packed = (
    packed.0,
    λ file.
        let (later, earlier, text, same, copied) = packed.1 file in
        (c ∷ later, earlier, text, ap (λ x. c ∷ x) same, copied),
  )

  All-Packed-later :
      (h : List Call) (c : Call) (es : List WalkEntry)
      → All (Packed p h) es
      → All (Packed p (c ∷ h)) es
  All-Packed-later h c [] a = tt
  All-Packed-later h c (e ∷ es) (packed, a) = (Packed-later h c e packed, All-Packed-later h c es a)

  Packed-Stable : (e : WalkEntry) → Stable (λ s. Packed p s.calls e) AnyCall
  Packed-Stable e = record { call = λ s c q h. Packed-later s.calls c e h; ocp = λ s h. h }

  module _ {P : State → Type 0} {Q : Call → Type 0} (stable : Stable P Q)
      (qo : (path : String) → Q (Call.open_file path))
      (qz : (path : String) → Q (Call.zip_create path))
      (qc : (path : String) → Q (Call.zip_copy path)) where
    walker-Keeps : (e : WalkEntry) → Keeps P (walker p e)
    unfolding walker
    walker-Keeps e =
        let opened = qo e.path in
        let made = qz e.path in let copied = qc e.path in search (keeps_rules, stable) depth 10

    pub walk_entries-Keeps : (es : List WalkEntry) → Keeps P (walk_entries p es)
    unfolding walk_entries
    walk_entries-Keeps [] = Keeps-pure tt
    walk_entries-Keeps (e ∷ es) = Keeps-bind _ _ (walker-Keeps e) (λ w. walk_entries-Keeps es)

  module _ {P : State → Type 0} {Q : Call → Type 0} (stable : Stable P Q)
      (qo : (path : String) → Q (Call.open_file path))
      (qz : (path : String) → Q (Call.zip_create path))
      (qc : (path : String) → Q (Call.zip_copy path)) where
    copy-Packed :
        (e : WalkEntry)
        → e.error ≡ none
        → Triple P
            (ask (Call.zip_copy e.path) (λ h. p.zip_copy h e.path))
            (λ text s. P s × Packed p s.calls e)
            P
    copy-Packed e sound =
        Triple-to _
          (Triple-ask stable (Call.zip_copy e.path) (λ h. p.zip_copy h e.path) (qc e.path))
          (λ text s h. (h.0, (sound, λ file. ([], h.1, text, h.2, h.3)))) (λ s h. h)

    file-Packed :
        (e : WalkEntry)
        → e.error ≡ none
        → Triple P
            (do
              opened ← ask (Call.open_file e.path) (λ h. p.open_file h e.path)
              made ← ask (Call.zip_create e.path) (λ h. p.zip_create h e.path)
              copied ← ask (Call.zip_copy e.path) (λ h. p.zip_copy h e.path)
              pure tt)
            (λ w s. P s × Packed p s.calls e)
            P
    file-Packed e sound =
        Triple-bind _ _ (Triple-of_Keeps _ (Keeps-ask stable _ _ (qo e.path))) (λ opened.
          Triple-bind _ _ (Triple-of_Keeps _ (Keeps-ask stable _ _ (qz e.path)))
            (λ made. Triple-bind _ _ (copy-Packed e sound) (λ copied. Triple-pure tt)))

    entry-Packed :
        (e : WalkEntry) (error : Option Error)
        → e.error ≡ error
        → Triple P
            (on_option error
              (if e.is_dir then pure tt else do
                opened ← ask (Call.open_file e.path) (λ h. p.open_file h e.path)
                made ← ask (Call.zip_create e.path) (λ h. p.zip_create h e.path)
                copied ← ask (Call.zip_copy e.path) (λ h. p.zip_copy h e.path)
                pure tt)
              raise)
            (λ w s. P s × Packed p s.calls e)
            P
    unfolding on_option raise
    entry-Packed e none sound =
        Triple-if e.is_dir _ _
          (λ dir. Triple-to _ (Triple-pure tt) (λ w s h. (h, (sound, λ file. cc))) (λ s h. h))
          (λ file. file-Packed e sound)
    entry-Packed e (some x) sound = record { at = λ s h. h }

    walker-Packed : (e : WalkEntry) → Triple P (walker p e) (λ w s. P s × Packed p s.calls e) P
    unfolding walker
    walker-Packed e = entry-Packed e e.error refl

    entries_keep-Packed :
        (e : WalkEntry) (es : List WalkEntry) → Keeps (λ s. Packed p s.calls e) (walk_entries p es)
    entries_keep-Packed e es = walk_entries-Keeps (Packed-Stable e) (λ x. tt) (λ x. tt) (λ x. tt) es

    walk_entries-Packed :
        (es : List WalkEntry)
        → Triple P (walk_entries p es) (λ w s. P s × All (Packed p s.calls) es) P
    unfolding walk_entries
    walk_entries-Packed [] = Triple-to _ (Triple-pure tt) (λ w s h. (h, tt)) (λ s h. h)
    walk_entries-Packed (e ∷ es) = Triple-bind _ _ (walker-Packed e) (λ w.
        Triple-to _ (Triple-frame _ (walk_entries-Packed es) (entries_keep-Packed e es))
          (λ w s h. (h.0.0, (h.1, h.0.1))) (λ s h. h))

module _ (p : Cluster) (l : LogCollector) where
  -- All calls so far are those of a collection.
  abbrev pub Footprint : State → Type 0
  Footprint s = Every (CollectCall p l) s.calls

  abbrev pub AlwaysCall : Call → Type 0
  AlwaysCall c = (h : List Call) → CollectCall p l h c

  pub Footprint-Stable : Stable Footprint AlwaysCall
  Footprint-Stable = record { call = λ s c q h. (q s.calls, h); ocp = λ s h. h }

  abbrev pub Finished : State → Type 0
  Finished s = Footprint s × Archived p l s.calls

  Archived-later : (h : List Call) (c : Call) → Archived p l h → Archived p l (c ∷ h)
  Archived-later h c (later, earlier, same, packed) =
      (c ∷ later, earlier, ap (λ x. c ∷ x) same, All-Packed-later p h c _ packed)

  Finished-Stable : Stable Finished (λ c. (h : List Call) → Archived p l h → CollectCall p l h c)
  Finished-Stable = record {
    call = λ s c q h. ((q s.calls h.1, h.0), Archived-later s.calls c h.1);
    ocp = λ s h. h;
  }

  -- The last step of an archive, and of a collection.
  pub clean_up-Keeps :
      Keeps Finished (if l.clean_output then pure tt else remove_all p l.output_dir >> pure tt)
  unfolding remove_all
  clean_up-Keeps =
      Keeps-if l.clean_output _ _ (λ kept. Keeps-pure tt)
        (λ removed.
          Keeps-bind _ _
            (Keeps-ask Finished-Stable (Call.remove_all l.output_dir) _ (λ h a. (refl, removed, a)))
            (λ r. Keeps-pure tt))

  -- The entries of the walk that was made.
  abbrev Walked : List WalkEntry → State → Type 0
  Walked entries s =
      Footprint s
      × (later : List Call) × (earlier : List Call) × (s.calls
          ≡ later ++ (Call.walk l.output_dir ∷ earlier))
      × (p.walk earlier l.output_dir ≡ entries)

  Walked-Stable : (entries : List WalkEntry) → Stable (Walked entries) AlwaysCall
  Walked-Stable entries = record {
    call = λ s c q h. ((q s.calls, h.0), c ∷ h.1, h.2, ap (λ x. c ∷ x) h.3, h.4);
    ocp = λ s h. h;
  }

  Finished-of_Walked :
      (entries : List WalkEntry) (s : State)
      → Walked entries s
      → All (Packed p s.calls) entries
      → Finished s
  Finished-of_Walked entries s h packed =
      (h.0, (h.1, h.2, h.3, subst (All (Packed p s.calls)) (sym h.4) packed))

  walk-Walked :
      Triple Footprint
        (ask (Call.walk l.output_dir) (λ h. ok (p.walk h l.output_dir)))
        Walked
        Footprint
  walk-Walked =
      Triple-to _ (Triple-ask Footprint-Stable (Call.walk l.output_dir) _ (λ h. refl))
        (λ entries s h. (h.0, [], h.1, h.2, cc)) (λ s h. h)

  pub zip_dir-Finished : Triple Footprint (zip_dir p l) (λ w. Finished) Footprint
  unfolding zip_dir
  zip_dir-Finished =
      Triple-bind _ _
        (Triple-of_Keeps _ (
          Keeps-ask Footprint-Stable (Call.create (String.◌++◌ l.output_dir ".zip")) _
            (λ h. Below-append _ _ ".zip" (Below-self l.output_dir))))
        (λ created. Triple-bind _ _ walk-Walked (λ entries.
          Triple-bind _ _
            (Triple-to _
              (walk_entries-Packed p (Walked-Stable entries) (λ x h. tt) (λ x h. tt) (λ x h. tt)
                entries)
              (λ w s h. Finished-of_Walked entries s h.0 h.1) (λ s h. h.0))
            (λ w. Triple-to _ (Triple-of_Keeps _ clean_up-Keeps) (λ c s h. h) (λ s h. h.0))))
