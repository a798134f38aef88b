-- ===== src/Python/IpTests.antt =====
-- Checked runs of the address texts.
use mirenai.Python.Ip.{ipv4, ipv6, ip_address, addr_text, reverse_pointer, ip_network}
use mirenai.Prelude.{list_eq, nat_eq, none, pair_eq, refl, some, ◌≡◌}
use mirenai.Python.Text.{codes}

v4_texts :
    (ip_address (codes "192.0.2.10") ≡ some (ipv4 3221225994))
    × (ip_address (codes "192.0.2.010") ≡ none)
    × (ip_address (codes "192.0.2") ≡ none)
    × (addr_text (ipv4 3221225994) ≡ codes "192.0.2.10")
    × (reverse_pointer (ipv4 3221225994) ≡ some (codes "10.2.0.192.in-addr.arpa"))
unfolding ip_address addr_text reverse_pointer
v4_texts = (refl, refl, refl, refl, refl)

v6_texts :
    (ip_address (codes "2001:db8::10") ≡ some (ipv6 0x20010db8000000000000000000000010 none))
    × (ip_address (codes "::ffff:1.2.3.4") ≡ some (ipv6 0xffff01020304 none))
    × (ip_address (codes "1::2::3") ≡ none)
    × (ip_address (codes "::") ≡ some (ipv6 0 none))
    × (addr_text (ipv6 0x20010db8000000000000000000000010 none) ≡ codes "2001:db8::10")
    × (addr_text (ipv6 0 none) ≡ codes "::")
    × (addr_text (ipv6 0x00010000000000000000000000000000 none) ≡ codes "1::")
    × (addr_text (ipv6 0x00010002000300040005000600070000 none) ≡ codes "1:2:3:4:5:6:7:0")
unfolding ip_address addr_text
v6_texts = (refl, refl, refl, refl, refl, refl, refl, refl)

networks :
    (ip_network (codes "10.2.10.5/24")
      ≡ some (record { width = 32; network_address = 167905792; host_bits = 8 }))
    × (ip_network (codes "10.0.0.0/255.0.0.0")
        ≡ some (record { width = 32; network_address = 167772160; host_bits = 24 }))
    × (ip_network (codes "10.0.0.0/33") ≡ none)
unfolding ip_network
networks = (refl, refl, refl)
