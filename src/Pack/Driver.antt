-- ===== src/Pack/Driver.antt =====
-- Pack from the options on: the schema, the identity, and the run on the directory of its revision.
use modelwrap.Prelude.{
  Bool, not, ◌∷◌, ◌++◌, Bytes, codes, beq, if◌then◌else◌, Result, ok, err, ◌>>=◌, ◌>>◌, refuse_if,
  map_err,
}
use modelwrap.Cli.{Options}
use modelwrap.Cli.Args.{is_set, or_else}
use modelwrap.Schema.{PackSchema}
use modelwrap.Artifacts.{Dir, Faults}
use modelwrap.Pack.{Tools, Request, PackError, schema_of, pack_revision}
use modelwrap.Pack.Resolve.{ModelHost, ResolveError, resolve_model}

pub data DriverError : Type 0 where
  no_dir : Bytes → DriverError
  refused : PackError → DriverError
  unresolved : ResolveError → DriverError

abbrev pub with_defaults : Options → Options
with_defaults o = record o {
  cache_dir = or_else o.cache_dir (codes "cache");
  output_dir = or_else o.output_dir (codes "output");
}

abbrev pub request_of : Options → Bytes × Bytes × Bytes → Request
request_of o (name, revision, dir) = record {
  model = name ++ (b'@' ∷ revision);
  model_dir = dir;
  is_local_dir = is_set o.model_dir;
  encrypt = o.encrypt;
  verify = o.verify;
  key_file = o.key_file;
}

-- The directories of revisions, by name and revision, where no revision is another one followed by a
-- suffix of the published names: such a pair shares files.
abbrev pub Dirs : Type 0
Dirs = Bytes → Bytes → Dir

abbrev pub put_dir : Dirs → Bytes → Bytes → Dir → Dirs
put_dir dirs name revision d n r =
    if beq n name then (if beq r revision then d else dirs n r) else dirs n r

abbrev pub settle :
    Dirs → Bytes → Bytes → Dir × Result PackError Bytes → Dirs × Result DriverError Bytes
settle dirs name revision (d, r) = (put_dir dirs name revision d, map_err refused r)

-- What is decided before anything of a revision is looked at.
unfoldable pub prepare :
    Tools
    → ModelHost
    → (Bytes → Bool)
    → Options
    → Result DriverError (PackSchema × (Bytes × Bytes × Bytes))
prepare t h can_make_dir o = do
  refuse_if (not (can_make_dir o.cache_dir)) (no_dir o.cache_dir)
  refuse_if (not (can_make_dir o.output_dir)) (no_dir o.output_dir)
  s ← map_err refused (schema_of t o.schema)
  found ← map_err unresolved (resolve_model h o)
  ok (s, found)

abbrev pub on_prepared :
    Result DriverError (PackSchema × (Bytes × Bytes × Bytes))
    → (PackSchema → Bytes × Bytes × Bytes → Dirs → Dirs × Result DriverError Bytes)
    → Dirs
    → Dirs × Result DriverError Bytes
on_prepared (err e) run dirs = (dirs, err e)
on_prepared (ok (s, found)) run dirs = run s found dirs

-- `Pack`; `before` are the directories of the check before the download.
unfoldable pub pack :
    Tools
    → ModelHost
    → (Bytes → Bool)
    → Faults
    → Bytes
    → Dirs
    → Options
    → Dirs
    → Dirs × Result DriverError Bytes
unfolding prepare
pack t h can_make_dir w crash_after before o dirs =
    on_prepared (prepare t h can_make_dir (with_defaults o))
      (λ s found dirs. settle dirs found.0 found.1 (
        pack_revision t w crash_after (before found.0 found.1) s (request_of o found)
          (dirs found.0 found.1)))
      dirs
