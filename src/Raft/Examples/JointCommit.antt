-- ===== src/Raft/Examples/JointCommit.antt =====
-- A leader that commits a joint configuration and appends the one that completes it.
use basisdb.Base.{◌≡◌, refl, arith, none, [], ◌∷◌}
use basisdb.Raft.Membership.{is_joint}
use basisdb.Raft.Log.{Log, config}
use basisdb.Raft.Event.{no_effects}
use basisdb.Raft.Core.{Core}
use basisdb.Raft.Leader.{joints_above, commit_loop, maybe_commit}
use basisdb.Raft.Leader.Fuel.{HasRoom, maybe_commit-enough}
use basisdb.Raft.Examples.Configurations.{two_to_three}
use basisdb.Raft.Examples.Replication.{leader_core, leader_of_three}

abbrev joint_log : Log
joint_log = record {
  entries = record { term = 1; index = 1; payload = config two_to_three } ∷ [];
  snapshot_index = 0;
  snapshot_term = 0;
  snapshot_config = none;
}

abbrev joint_core : Core
joint_core = record leader_core { persistent = record leader_core.persistent { log = joint_log } }

one_joint : joints_above 0 joint_log.entries ≡ 1
unfolding joints_above is_joint
one_joint = refl

joint_core-HasRoom : HasRoom joint_core
joint_core-HasRoom = record {
  valid = record { numbered = (refl, tt); fits = omega arith };
  committed = omega arith;
  room = omega (arith, one_joint);
}

maybe_commit-enough_example :
    commit_loop 9 leader_of_three joint_core no_effects ≡ maybe_commit leader_of_three joint_core
maybe_commit-enough_example =
    maybe_commit-enough leader_of_three joint_core 9 joint_core-HasRoom (omega (arith, one_joint))
