-- ===== src/Factory/Tests.antt =====
-- The objects of npl.hpp, made beside a dispatcher.
use cpp_npl.Base.{ℕ, zero, suc, refl, true, [], codes}
use cpp_npl.Subject.{plain, dispatcher, Subject, World, new_subject}
use cpp_npl.Ftp.State.{Tls}
use cpp_npl.Factory.{make_ftp, make_ws_server, make_http_client}
use cpp_npl.Factory.Connected.{Connects, factories_connect}

abbrev one : ℕ → Subject
one zero = new_subject dispatcher
one (suc i) = new_subject plain

abbrev world : World
world = record { at = one; calls = [] }

factories_connect_example :
    Connects 0 1 2 (make_ftp 0 1 2 true (codes "10.0.0.1") 21 Tls.explicit world).1
    × Connects 0 1 2 (make_ws_server 0 1 2 true (codes "10.0.0.1") 21 Tls.explicit true world).1
    × Connects 0 1 2 (make_http_client 0 1 2 true (codes "10.0.0.1") 21 world).1
factories_connect_example =
    factories_connect 0 1 2 world (codes "10.0.0.1") 21 Tls.explicit true refl refl refl refl refl
