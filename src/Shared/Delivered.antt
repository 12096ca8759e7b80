-- ===== src/Shared/Delivered.antt =====
-- What a run of Pack that succeeds has delivered, whatever has been at work before it.
use mathlib.Core.Path.{subst}
use modelwrap.Prelude.{
  ℕ, ◌≡◌, ◌<◌, ◌^◌, sym, ap, ◌∙◌, Bool, true, false, Bytes, if◌then◌else◌, Option, ok, map_err-ok,
}
use modelwrap.Lock
use modelwrap.Ref.{ArtifactRef, to_string}
use modelwrap.Schema.{PackSchema}
use modelwrap.Build.{parse_info_file}
use modelwrap.Artifacts.{Dir, Entry, absent, failing, file, Faults, check_existing_artifacts}
use modelwrap.Pack.{
  Tools, Request, PackError, content, unreadable_info, verify_failed, pure, ensure_mwp,
  pack_encrypted, pack_locked, outer_ref,
}
use modelwrap.Pack.Kept.{IsKept, if_encrypt-Keeps}
use modelwrap.Pack.Packed.{then_run_ok, read_ok}
use modelwrap.Pack.Again.{ensure_mwp-IsPacked, verify_dir}
use modelwrap.Shared.{unstarted, World, IsBuilt, Reach, start}
use modelwrap.Shared.Inv.{Consistent}
use modelwrap.Shared.Runs.{Reach-trans}
use modelwrap.Shared.Refines.{Runs-ensure}
use modelwrap.Shared.Commit.{reused-IsBuilt}

-- The text of a file that was read.
content_ok : (e : PackError) (entry : Entry) (b : Bytes) → content e entry ≡ ok b → entry ≡ file b
content_ok e absent b h = cc
content_ok e failing b h = cc
content_ok e (file x) b h = cc

module _ (t : Tools) (w : Faults) (crash_after : Bytes) (q : Request) where
  -- The reference that Pack returns.
  abbrev pub reported : Bool → ArtifactRef → Bytes
  reported encrypting r =
      if encrypting then to_string (outer_ref t w crash_after q r) else to_string r

  pack_encrypted-reported :
      (r : ArtifactRef) (d u : Dir) (text : Bytes)
      → pack_encrypted t w crash_after q r d ≡ (u, ok text)
      → text ≡ to_string (outer_ref t w crash_after q r)
  unfolding pack_encrypted
  pack_encrypted-reported r d u text h =
      let (d1, master_key, _, h1) = then_run_ok {A = Bytes} _ _ u text h in
      let (d2, _, _, h2) = then_run_ok {A = Unit {0}} _ _ u text h1 in
      let (d3, _, _, h3) = then_run_ok {A = Unit {0}} _ _ u text h2 in
      let (d4, _, _, h4) = then_run_ok {A = Unit {0}} _ _ u text h3 in
      let e = (read_ok d4 u (ok (to_string (outer_ref t w crash_after q r))) text h4).1 in cc e

  end-reported :
      (b : Bool) (r : ArtifactRef) (d u : Dir) (text : Bytes)
      → (if b then pack_encrypted t w crash_after q r else pure (to_string r)) d ≡ (u, ok text)
      → text ≡ reported b r
  end-reported true r d u text h = pack_encrypted-reported r d u text h
  end-reported false r d u text h = let e = (read_ok d u (ok (to_string r)) text h).1 in cc e

  -- A successful run, taken apart: the directory behind its first step, and the reference in it.
  parts :
      (p : PackSchema) (d u : Dir) (text : Bytes)
      → pack_locked t w crash_after p q d ≡ (u, ok text)
      → (m : Dir) × (info_text : Bytes) × (r : ArtifactRef) × (ensure_mwp t w crash_after p q d
          ≡ (m, ok tt))
        × (m.info_file ≡ file info_text)
        × (parse_info_file info_text ≡ ok r)
        × IsKept m u
        × (text ≡ reported q.encrypt r)
  unfolding pack_locked
  parts p d u text h =
      let (d1, x, e1, h1) = then_run_ok {A = Unit {0}} _ _ u text h in
      let (d2, y, e2, h2) = then_run_ok {A = Unit {0}} _ _ u text h1 in
      let (d3, info_text, e3, h3) = then_run_ok {A = Bytes} _ _ u text h2 in
      let (d4, r, e4, h4) = then_run_ok {A = ArtifactRef} _ _ u text h3 in
      let (same3, is_info) = read_ok d2 d3 _ info_text e3 in
      let (same4, parsed) = read_ok d3 d4 _ r e4 in
      let same : d4 ≡ d1 =
        sym same4
        ∙ (sym same3 ∙ (sym (ap (λ k. k.0) e2) ∙ verify_dir t w crash_after q.verify q d1)) in
      let kept : IsKept d4 u =
        subst (IsKept d4) (ap (λ k. k.0) h4) (if_encrypt-Keeps t w crash_after q.encrypt q r d4) in
      (
        d1,
        info_text,
        r,
        e1,
        ap (λ (k : Dir). k.info_file) (sym same ∙ (sym same4 ∙ sym same3))
            ∙ content_ok unreadable_info d2.info_file info_text is_info,
        map_err-ok verify_failed (parse_info_file info_text) parsed,
        subst (λ k. IsKept k u) same kept,
        end-reported q.encrypt r d4 u text h4,
      )

-- From a directory in which a complete pair is one that was built under its schema, behind any steps of
-- any runs of Pack and Delete with crashes, and with writes, renames and removals that fail, except that
-- a deletion can remove the info file: where a process that has the lock runs Pack
-- under a schema whose id is positive and fits an int, for any request and with any failures, and Pack
-- returns a reference, the image and the info file that it leaves are the ones that one run of buildMWP
-- returned under that schema, and the reference returned is the one that the info file holds, with the
-- outer UUID where Pack has encrypted.
pub pack_locked-IsBuilt :
    (t : Tools) (path : Option ℕ) (first_inode : ℕ) (d : Dir) (s : World) (w i : ℕ) (f : Faults)
    (crash_after : Bytes) (p : PackSchema) (q : Request) (u : Dir) (text : Bytes)
    → Consistent t d
    → Reach t (start path first_inode d) s
    → s.lock.phase w ≡ Lock.acquired i
    → s.job w ≡ unstarted
    → 0 < p.id
    → p.id < 2 ^ 63
    → pack_locked t f crash_after p q s.dir ≡ (u, ok text)
    → (mwp : Bytes) × (ref : Bytes) × (r : ArtifactRef) × IsBuilt t p.id mwp ref
      × (u.mpk_file ≡ file mwp)
      × (u.info_file ≡ file ref)
      × (parse_info_file ref ≡ ok r)
      × (text ≡ reported t f crash_after q q.encrypt r)
pack_locked-IsBuilt t path first_inode d s w i f crash_after p q u text good run at free pos_id fits
      h =
    let (m, info_text, r, e, is_info, parsed, kept, out) =
      parts t f crash_after q p s.dir u text h in
    let runs = Runs-ensure t w i f crash_after p q s at free pos_id fits in
    let same : runs.to.dir ≡ m = runs.at_dir ∙ ap (λ k. k.0) e in
    let packed = ensure_mwp-IsPacked t f crash_after p q s.dir m tt pos_id fits e in
    let (mwp, ref, built, is_mpk, is_ref) =
      reused-IsBuilt t path first_inode d runs.to p.id good (Reach-trans t w run runs.run)
        (subst (λ k. check_existing_artifacts k p.id ≡ ok true) (sym same) packed.reused) in
    let at_mpk : m.mpk_file ≡ file mwp = ap (λ (k : Dir). k.mpk_file) (sym same) ∙ is_mpk in
    let at_ref : m.info_file ≡ file ref = ap (λ (k : Dir). k.info_file) (sym same) ∙ is_ref in
    let one : info_text ≡ ref = cc (is_info, at_ref) in
    (
      mwp,
      ref,
      r,
      built,
      kept.mpk mwp at_mpk,
      kept.info ref at_ref,
      subst (λ k. parse_info_file k ≡ ok r) one parsed,
      out,
    )
