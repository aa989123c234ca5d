-- ===== src/Batch/Commands.antt =====
-- The commands of the batch service at a concrete database, for class BatchControllerSubsystem of
-- src/chamber_ctl/subsystems/batch_controller.py.
use chamber_ctl.Batch.Archive.{Archive, shelf, shelf-IsLibrary, first_manifest, stored, archiving}
use chamber_ctl.Batch.Service.Withdrawn.{
  withdraw-IsCommanded, unwithdraw-IsCommanded, IsPutAside, IsPutBack,
}
use chamber_ctl.Batch.Service.Withdraw.{withdraw, unwithdraw, keep_changed, manifest_of}
use chamber_ctl.Batch.Service.{BatchController, make_service, already_archived}
use chamber_ctl.Batch.Manifest.{BatchManifest, check_manifest}
use chamber_ctl.Prelude.{◌∷◌, [], ok, err, ◌≡◌, refl, fin, pos, strip}

commanding : Unit {0}
unfolding withdraw unwithdraw keep_changed manifest_of make_service check_manifest strip archiving
commanding = tt

abbrev service : BatchController (Unit {0})
unfolding commanding
service = record make_service { manifests = (9, first_manifest) ∷ [] }

abbrev Outcome : Type 0
Outcome = BatchManifest × BatchController (Unit {0}) × Archive

abbrev put_aside : Outcome
unfolding commanding
put_aside = elim (withdraw shelf 9 (fin (pos 20)) service stored) [
  | ok r ↦ r
  | err e ↦ (first_manifest, service, stored)
]

withdraws_first : withdraw shelf 9 (fin (pos 20)) service stored ≡ ok put_aside
unfolding commanding
withdraws_first = refl

withdraw-IsCommanded_example : IsPutAside shelf (fin (pos 20)) 9 service stored put_aside
withdraw-IsCommanded_example =
    withdraw-IsCommanded shelf shelf-IsLibrary 9 (fin (pos 20)) service stored put_aside
      withdraws_first

abbrev put_back : Outcome
unfolding commanding
put_back = elim (unwithdraw shelf 9 (fin (pos 30)) put_aside.1 put_aside.2) [
  | ok r ↦ r
  | err e ↦ (first_manifest, service, stored)
]

restores_first : unwithdraw shelf 9 (fin (pos 30)) put_aside.1 put_aside.2 ≡ ok put_back
unfolding commanding
restores_first = refl

unwithdraw-IsCommanded_example : IsPutBack shelf (fin (pos 30)) 9 put_aside.1 put_aside.2 put_back
unwithdraw-IsCommanded_example =
    unwithdraw-IsCommanded shelf shelf-IsLibrary 9 (fin (pos 30)) put_aside.1 put_aside.2 put_back
      restores_first

withdraws_once : withdraw shelf 9 (fin (pos 40)) put_aside.1 put_aside.2 ≡ err already_archived
unfolding commanding
withdraws_once = refl
