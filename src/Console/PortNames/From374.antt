-- ===== src/Console/PortNames/From374.antt =====
-- The cases of getPortName (ConsoleTest/portNames.cpp) for the ports from 374 to 514.
use Prim.Native.String.{String}
use watchfirewall.Prelude.{ℕ, List, [], ◌∷◌}

unfoldable pub names_from_374 : List (ℕ × String)
names_from_374 =
    (374, "Legent Corporation.")
    ∷ (375, "Hassle.")
    ∷ (376, "Amiga Envoy Network Inquiry Proto. ")
    ∷ (377, "NEC Corporation.")
    ∷ (378, "NEC Corporation.")
    ∷ (379, "TIA/EIA/IS-99 modem client.")
    ∷ (380, "TIA/EIA/IS-99 modem server.")
    ∷ (381, "HP performance data collector.")
    ∷ (382, "HP performance data managed node.")
    ∷ (383, "HP performance data alarm manager.")
    ∷ (384, "A Remote Network Server System.")
    ∷ (385, "IBM Application.")
    ∷ (386, "ASA Message Router Object Def.")
    ∷ (387, "AURP, AppleTalk Update-based Routing Protocol.")
    ∷ (388, "Unidata LDM Version 4.")
    ∷ (
      389,
      "LDAP, Lightweight Directory Access Protocol. CLDAP, Connection-less Lightweight X.500 Directory Access Protocol.",
    )
    ∷ (390, "UIS.")
    ∷ (391, "SynOptics SNMP Relay Port.")
    ∷ (392, "SynOptics Port Broker Port.")
    ∷ (393, "Data Interpretation System.")
    ∷ (394, "EMBL Nucleic Data Transfer.")
    ∷ (395, "NETscout Control Protocol.")
    ∷ (396, "Novell Netware over IP.")
    ∷ (397, "Multi Protocol Trans. Net.")
    ∷ (398, "Kryptolan.")
    ∷ (399, "TP2 encapsulation.")
    ∷ (400, "Oracle Secure Backup.")
    ∷ (401, "Uninterruptible Power Supply.")
    ∷ (402, "Genie Protocol.")
    ∷ (403, "decap.")
    ∷ (404, "nced.")
    ∷ (405, "ncld.")
    ∷ (406, "Interactive Mail Support Protocol.")
    ∷ (407, "Timbuktu.")
    ∷ (408, "Prospero Resource Manager System Manager.")
    ∷ (409, "Prospero Resource Manager Node Manager.")
    ∷ (410, "DEC Ladebug Remote Debug Protocol.")
    ∷ (411, "Remote MT Protocol.")
    ∷ (412, "Trap Convention Port.")
    ∷ (413, "SMSP.")
    ∷ (414, "InfoSeek.")
    ∷ (415, "BNet.")
    ∷ (416, "Silverplatter.")
    ∷ (417, "Onmux.")
    ∷ (418, "Hyper-G.")
    ∷ (419, "Ariel.")
    ∷ (420, "SMPTE.")
    ∷ (421, "Ariel.")
    ∷ (422, "Ariel.")
    ∷ (423, "IBM Operations Planning and Control Start.")
    ∷ (424, "IBM Operations Planning and Control Track.")
    ∷ (425, "ICAD.")
    ∷ (426, "smartsdp")
    ∷ (427, "SLP, Service Location Protocol.")
    ∷ (428, "OCS_CMU.")
    ∷ (429, "OCS_AMU")
    ∷ (430, "UTMPSD")
    ∷ (431, "UTMPCD")
    ∷ (432, "IASD ")
    ∷ (433, "NNSP")
    ∷ (434, "Mobile IP agent.")
    ∷ (435, "Mobile IP MN.")
    ∷ (436, "DNA-CML ")
    ∷ (437, "comscm")
    ∷ (438, "dsfgw")
    ∷ (439, "dasp")
    ∷ (440, "sgcp")
    ∷ (441, "decvms-sysmgt")
    ∷ (442, "cvc_hostd")
    ∷ (443, "HTTPS, HTTP over SSL/TLS.")
    ∷ (444, "SNPP, Simple Network Paging Protocol.")
    ∷ (445, "Microsoft-DS.")
    ∷ (446, "DDM-RDB")
    ∷ (447, "DDM-RFM")
    ∷ (448, "DDM-SSL")
    ∷ (449, "AS Server Mapper")
    ∷ (450, "TServer")
    ∷ (451, "Cray Network Semaphore server")
    ∷ (452, "Cray SFS config server")
    ∷ (453, "CreativeServer")
    ∷ (454, "ContentServer")
    ∷ (455, "CreativePartnr")
    ∷ (456, "macon-tcp")
    ∷ (457, "scohelp")
    ∷ (458, "apple quick time")
    ∷ (459, "ampr-rcmd")
    ∷ (460, "skronk")
    ∷ (461, "DataRampSrv")
    ∷ (462, "DataRampSrvSec")
    ∷ (463, "alpes")
    ∷ (464, "Kerberos change/set password.")
    ∷ (465, "(TCP) URL Rendesvous Directory for SSM. (UDP) IGMP over UDP for SSM.")
    ∷ (466, "digital-vrc")
    ∷ (467, "mylex-mapd")
    ∷ (468, "Photuris.")
    ∷ (469, "Radio Control Protocol.")
    ∷ (470, "scx-proxy")
    ∷ (471, "Mondex.")
    ∷ (472, "ljk-login.")
    ∷ (473, "hybrid-pop.")
    ∷ (474, "(TCP) tn-tl-w1. (UDP) tn-tl-w2.")
    ∷ (475, "tcpnethaspsrv.")
    ∷ (476, "tn-tl-fd1.")
    ∷ (477, "ss7ns.")
    ∷ (478, "spsc.")
    ∷ (479, "iafserver.")
    ∷ (480, "iafdbase.")
    ∷ (481, "Ph service.")
    ∷ (482, "bgs-nsi.")
    ∷ (483, "ulpnet.")
    ∷ (484, "Integra Software Management Environment.")
    ∷ (485, "Air Soft Power Burst.")
    ∷ (486, "Avian.")
    ∷ (487, "SAFT, Simple Asynchronous File Transfer.")
    ∷ (488, "gss-http.")
    ∷ (489, "nest-protocol.")
    ∷ (490, "micom-pfs.")
    ∷ (491, "go-login.")
    ∷ (492, "Transport Independent Convergence for FNA.")
    ∷ (493, "Transport Independent Convergence for FNA.")
    ∷ (494, "POV-Ray.")
    ∷ (495, "intecourier.")
    ∷ (496, "PIM-RP-DISC.")
    ∷ (497, "dantz.")
    ∷ (498, "siam.")
    ∷ (499, "ISO ILL Protocol.")
    ∷ (500, "ISAKMP. IKE, Internet Key Exchange.")
    ∷ (501, "STMF.")
    ∷ (502, "asa-appl-proto.")
    ∷ (503, "Intrinsa.")
    ∷ (504, "citadel.")
    ∷ (505, "mailbox-lm.")
    ∷ (506, "ohimsrv.")
    ∷ (507, "crs.")
    ∷ (508, "xvttp.")
    ∷ (509, "snare.")
    ∷ (510, "FirstClass Protocol.")
    ∷ (511, "mynet-as.")
    ∷ (
      512,
      "rexec, remote process execution. Used by mail system to notify users of new mail received.",
    )
    ∷ (
      513,
      "Rlogin. Maintains data bases for who's logged on a local net and the average load of the machine.",
    )
    ∷ (514, "Syslog. cmd like exec but automatic authentication is performed for login server.")
    ∷ []
