-- ===== src/Logger/Client/Logging.antt =====
-- What a whole run of clients that log (pans/src/Logger/Logger.cc) leaves in the streams.
use pans.Appender.{Outputs, Target, stream_of}
use pans.Base.Int.{ℤ}
use pans.Base.{
  ℕ, Bool, ◌≡◌, refl, sym, ap, ◌∙◌, false, some, List, [], ◌∷◌, ◌++◌, Bytes, is_empty, append-nil,
  append_assoc, length,
}
use pans.Buffer.{Allocator}
use pans.Formatter.{TimeLibrary, DateCache}
use pans.Logger.Client.{log, run, call_on, perform}
use pans.Logger.Client.Output.{line_from, session_text, as_calls, Holds}
use pans.Logger.Client.Session.{Grown, Grown-same, get_logger-Grown}
use pans.Logger.Client.Written.{Loggable, submit-Wrote}
use pans.Logger.Manager.{Manager, find, get_logger}
use pans.Logger.Manager.Names.{IsValid}
use pans.LogLine.Assertion.{Site}
use pans.Macros.{Build, Assertion}
use pans.Record.{LogRecordView}

module _ (locks : ℕ → Bool) {Tm : Type 0} (time : TimeLibrary Tm) (alloc : Allocator) (f : Bytes)
    (printed : ℤ → Bytes) (m : Manager) (v : IsValid m) where
  -- Every name is one, and every record can be logged.
  abbrev pub AreLoggable : List (Bytes × LogRecordView) → Type 0
  AreLoggable [] = Unit
  AreLoggable ((name, r) ∷ calls) =
      (is_empty name ≡ false) × Loggable locks time alloc f printed m v r × AreLoggable calls

  abbrev after : Manager → Outputs → DateCache → Manager
  after m2 o cache = record m2 { world = record m2.world { outputs = o; cache = cache } }

  -- The outputs and the cache change, but no logger.
  Grown-after :
      (m2 : Manager) (o : Outputs) (cache : DateCache) → Grown m m2 → Grown m (after m2 o cache)
  Grown-after m2 o cache g = record {
    valid = record {
      named = g.valid.named;
      root_found = g.valid.root_found;
      root_alone = g.valid.root_alone;
      linked = g.valid.linked;
    };
    root_same = g.root_same;
    more = g.more;
    old = g.old;
    default = g.default;
    keeps = g.keeps;
    added = g.added;
  }

  -- One call.
  record Logged (name : Bytes) (r : LogRecordView) (m' m3 : Manager) : Type 0 where
    grown : Grown m m3
    impls_same : m3.world.outputs.impls ≡ m.world.outputs.impls
    holds : Holds printed m3.world.cache
    written :
        (target : Target)
        → (stream_of target m3.world.outputs).written
          ≡ (stream_of target m'.world.outputs).written
            ++ line_from locks printed m target r (find name m.entries)

  call_on-Logged :
      (site : ℕ → Assertion → Site) (name : Bytes) (r : LogRecordView) (m' : Manager)
      → is_empty name ≡ false
      → Loggable locks time alloc f printed m v r
      → Grown m m'
      → m'.world.outputs.impls ≡ m.world.outputs.impls
      → Holds printed m'.world.cache
      → (m3 : Manager) × (call_on locks time alloc Build.release_build site
            (log r)
            (get_logger Build.release_build name m')
          ≡ some m3)
        × Logged name r m' m3
  unfolding call_on perform
  call_on-Logged site name r m' some_name l g impls_same holds =
      let (id, m2, got_it, gets) = get_logger-Grown m m' name g some_name in
      let impls2 : m2.world.outputs.impls ≡ m.world.outputs.impls =
        ap (λ (o : Outputs). o.impls) gets.outputs_same ∙ impls_same in
      let holds2 : Holds printed m2.world.cache = rw gets.cache_same holds in
      let wrote =
        submit-Wrote locks time alloc f printed m v site m2.root r l m2 gets.grown impls2 holds2
          name id gets.found in
      (
        after m2 wrote.outputs wrote.cache,
        rw (got_it, wrote.ended) refl,
        record {
          grown = Grown-after m2 wrote.outputs wrote.cache gets.grown;
          impls_same = wrote.impls_same ∙ impls2;
          holds = wrote.holds;
          written = λ target.
              wrote.written target
              ∙ ap
                  (λ (o : Outputs).
                    (stream_of target o).written
                    ++ line_from locks printed m target r (find name m.entries))
                  gets.outputs_same;
        },
      )

  run-session_text :
      (sites : ℕ → ℕ → Assertion → Site) (calls : List (Bytes × LogRecordView)) (m' : Manager)
      → AreLoggable calls
      → Grown m m'
      → m'.world.outputs.impls ≡ m.world.outputs.impls
      → Holds printed m'.world.cache
      → (m3 : Manager) × (run locks time alloc Build.release_build sites (as_calls calls) m'
          ≡ some m3)
        × ((target : Target)
            → (stream_of target m3.world.outputs).written
              ≡ (stream_of target m'.world.outputs).written
                ++ session_text locks printed m target calls)
  unfolding run
  run-session_text sites [] m' all g impls_same holds =
      (m', refl, λ target. sym (append-nil (stream_of target m'.world.outputs).written))
  run-session_text sites ((name, r) ∷ calls) m' (some_name, l, all) g impls_same holds =
      let (m2, called, d) =
        call_on-Logged (sites (length (as_calls calls))) name r m' some_name l g impls_same holds in
      let (m3, ran, wrote) = run-session_text sites calls m2 all d.grown d.impls_same d.holds in
      (m3, rw called ran, λ target. wrote target ∙ rw (d.written target, append_assoc) refl)

  -- Clients that only log, in a release build and from a valid manager on: every run ends, and each
  -- stream has grown by the lines of the records in the order of the calls. The line of a record is its
  -- text once for each appender that reaches the stream, of the logger of its name, or of the root logger
  -- where that has none or is new, if both levels let it through. The records are machine words at
  -- seconds that the C library prints, all date items have one format, the texts fit the 256 bytes of the
  -- buffer, and the thread's cache holds the text of its second; memory may be refused, and failed
  -- assertions would log at any `sites`.
  pub logging_written :
      (sites : ℕ → ℕ → Assertion → Site) (calls : List (Bytes × LogRecordView))
      → AreLoggable calls
      → Holds printed m.world.cache
      → (m3 : Manager) × (run locks time alloc Build.release_build sites (as_calls calls) m
          ≡ some m3)
        × ((target : Target)
            → (stream_of target m3.world.outputs).written
              ≡ (stream_of target m.world.outputs).written
                ++ session_text locks printed m target calls)
  logging_written sites calls all holds =
      run-session_text sites calls m all (Grown-same m v) refl holds
