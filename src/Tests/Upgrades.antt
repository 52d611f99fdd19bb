-- ===== src/Tests/Upgrades.antt =====
-- Upgrades with other calls between, at concrete inputs.
use aurora_engine.Prelude.{◌≡◌, refl, [], ◌∷◌, ◌++◌, arith, ok, codes, bytes_eq, le_bytes, le_value}
use aurora_engine.Storage.{code_key}
use aurora_engine.Sdk.{return_output}
use aurora_engine.Engine.{get_state, get_code as account_code}
use aurora_engine.Contract.Admin.{stage_upgrade, deploy_upgrade, get_owner}
use aurora_engine.Contract.Views.{get_code}
use aurora_engine.Contract.Users.{by_get_code}
use aurora_engine.Contract.Users.History.{History, none_yet, next}
use aurora_engine.Contract.Authority.{
  Outside, Stands, by_deploy_upgrade, by_get_owner, Outside-Stands,
}
use aurora_engine.Contract.Liveness.{staged_world, stage_upgrade-deploy_upgrade}
use aurora_engine.Demo.{World, platform, address_of}
use aurora_engine.Tests.Admin.{owned, called, staging}

-- Bob reads an account in between.
abbrev reading : World
reading = record (staged_world platform staging) {
  context = (called "bob" 103 (address_of 1)).context;
}

abbrev read : World
read = return_output platform (account_code platform (address_of 1) reading) reading

read_by_bob : get_code platform reading ≡ ok read
unfolding get_code
read_by_bob = refl

abbrev one_call : History platform (staged_world platform staging) read
one_call = next none_yet (λ s. refl) (by_get_code read_by_bob)

abbrev deploying : World
deploying = record read { context = (called "mallory" 106 []).context }

found : get_state platform staging ≡ ok owned
unfolding get_state bytes_eq
found = refl

stage_upgrade-deploy_upgrade_example :
    (stage_upgrade platform staging ≡ ok (staged_world platform staging))
    × ((end : World) × (deploy_upgrade platform deploying ≡ ok end)
        × (end.deployed ≡ deploying.deployed ++ (codes "aurora", codes "wasm") ∷ []))
stage_upgrade-deploy_upgrade_example =
    stage_upgrade-deploy_upgrade platform staging read deploying owned found refl (omega arith)
      one_call (λ s. refl) (omega arith)

-- Mallory deploys what was staged, and then asks for the owner.
abbrev deployed : World
deployed =
    platform.deploy_contract (platform.storage_remove deploying code_key) (codes "aurora")
      (codes "wasm")

deployed_by_mallory : deploy_upgrade platform deploying ≡ ok deployed
unfolding deploy_upgrade get_state bytes_eq le_bytes le_value
deployed_by_mallory = refl

abbrev asking : World
asking = record deployed { context = (called "mallory" 107 []).context }

abbrev answered : World
answered = return_output platform (codes "alice") asking

owner_given : get_owner platform asking ≡ ok answered
unfolding get_owner get_state bytes_eq
owner_given = refl

two_calls : Outside platform owned.owner_id deploying answered
two_calls =
    Outside.next
      (Outside.next Outside.none_yet (λ s. refl) (cc) (by_deploy_upgrade deployed_by_mallory))
      (λ s. refl) (cc) (by_get_owner owner_given)

found_by_mallory : get_state platform deploying ≡ ok owned
unfolding get_state bytes_eq
found_by_mallory = refl

Outside-Stands_example :
    (get_state platform answered ≡ ok owned) × Stands platform deploying answered
Outside-Stands_example = Outside-Stands platform owned found_by_mallory (cc) two_calls
