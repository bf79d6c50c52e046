-- ===== src/Tests/Roots.antt =====
-- Paths that try to leave the root.
use sftp_go.Base.{◌≡◌, refl, codes, some, true}
use sftp_go.Packet.{get_path, rename}
use sftp_go.Requests.{Request, plain, request_from_packet, subject_path}
use sftp_go.Requests.Confined.{Confined, request_from_packet-Confined}
use sftp_go.Paths.{clean_path_with_base, is_abs}
use sftp_go.Paths.Safety.{Clean, clean_path_with_base-Clean, clean_path_with_base_idem}

home_abs : is_abs (codes "/home") ≡ true
unfolding is_abs
home_abs = refl

clean_path_with_base-Clean_example :
    Clean (clean_path_with_base (codes "/home") (codes "../../etc//./passwd"))
clean_path_with_base-Clean_example =
    clean_path_with_base-Clean (codes "/home") (codes "../../etc//./passwd") home_abs

clean_path_with_base_idem_example :
    clean_path_with_base (codes "/home") (clean_path_with_base (codes "/home") (codes "a/../b"))
    ≡ clean_path_with_base (codes "/home") (codes "a/../b")
clean_path_with_base_idem_example =
    clean_path_with_base_idem (codes "/home") (codes "a/../b") home_abs

-- A rename out of the root is confined, on both sides.
request_from_packet-Confined_example :
    (r : Request) × (request_from_packet
        (codes "/home")
        (plain (rename 1 (codes "../../x") (codes "../y")))
      ≡ some r)
    × Confined r
unfolding subject_path get_path
request_from_packet-Confined_example =
    request_from_packet-Confined (codes "/home") home_abs
      (plain (rename 1 (codes "../../x") (codes "../y"))) (codes "../../x") refl tt
