-- ===== src/Tests/NetTests.antt =====
-- Addresses read and printed.
use wgrift.Base.{◌≡◌, refl, codes, split_at, scan_digits, any, print_nat}
use wgrift.Net.{parse_ip, parse_cidr, print_ip, is_ipv4}
use wgrift.Store.TunnelIps.{extract_host_ip}

hosts :
    (extract_host_ip (codes "10.100.0.2/24") ≡ codes "10.100.0.2")
    × (extract_host_ip (codes "10.100.0.2") ≡ codes "10.100.0.2")
    × (extract_host_ip (codes "10.100.0.02") ≡ codes "")
    × (extract_host_ip (codes "10.100.0.2/33") ≡ codes "")
    × (extract_host_ip (codes "FD00:0::0:A/64") ≡ codes "fd00::a")
    × (extract_host_ip (codes "::ffff:1.2.3.4/96") ≡ codes "1.2.3.4")
    × (extract_host_ip (codes "1:2:3:4:5:6:7:8:9") ≡ codes "")
    × (extract_host_ip (codes "1:0:0:2::8") ≡ codes "1:0:0:2::8")
    × (extract_host_ip (codes "fe80::1%eth0") ≡ codes "")
    × (extract_host_ip (codes "::") ≡ codes "::")
    × (extract_host_ip (codes "1:2:3:4:5:6:1.2.3.4") ≡ codes "1:2:3:4:5:6:102:304")
unfolding extract_host_ip parse_ip parse_cidr print_ip split_at scan_digits any print_nat is_ipv4
hosts = (refl, refl, refl, refl, refl, refl, refl, refl, refl, refl, refl)
