-- ===== src/Console/PortNames/From657.antt =====
-- The cases of getPortName (ConsoleTest/portNames.cpp) for the ports from 657 to 1023.
use Prim.Native.String.{String}
use watchfirewall.Prelude.{ℕ, List, [], ◌∷◌}

unfoldable pub names_from_657 : List (ℕ × String)
names_from_657 =
    (657, "RMC.")
    ∷ (658, "TenFold.")
    ∷ (659, "URL Rendezvous.")
    ∷ (660, "MacOS Server Admin.")
    ∷ (661, "HAP.")
    ∷ (662, "PFTP.")
    ∷ (663, "PureNoise.")
    ∷ (
      664,
      "DMTF out-of-band secure web services management protocol. ASF Secure Remote Management and Control Protocol. Secure Aux Bus.",
    )
    ∷ (665, "Sun DR.")
    ∷ (666, "Doom, Id Software.")
    ∷ (667, "Campaign contribution campaign contribution disclosures - SDR Technologies.")
    ∷ (668, "MeComm.")
    ∷ (669, "MeRegister.")
    ∷ (670, "VACDSM-SWS.")
    ∷ (671, "VACDSM-APP.")
    ∷ (672, "VPPS-QUA.")
    ∷ (673, "CIMPLEX.")
    ∷ (674, "ACAP, Application Configuration Access Protocol.")
    ∷ (675, "DCTP.")
    ∷ (676, "VPPS Via.")
    ∷ (677, "Virtual Presence Protocol.")
    ∷ (678, "GNU Gereration Foundation NCP.")
    ∷ (679, "MRM.")
    ∷ (680, "entrust-aaas.")
    ∷ (681, "entrust-aaas.")
    ∷ (682, "XFR.")
    ∷ (683, "CORBA IIOP.")
    ∷ (684, "CORBA IIOP SSL.")
    ∷ (685, "MDC Port Mapper.")
    ∷ (686, "Hardware Control Protocol Wismar.")
    ∷ (687, "asipregistry.")
    ∷ (688, "REALM-RUSD.")
    ∷ (689, "NMAP.")
    ∷ (690, "VATP.")
    ∷ (691, "MS Exchange Routing.")
    ∷ (692, "Hyperwave-ISP.")
    ∷ (693, "connendp.")
    ∷ (694, "ha-cluster.")
    ∷ (695, "IEEE-MMS-SSL.")
    ∷ (696, "RUSHD.")
    ∷ (697, "UUIDGEN.")
    ∷ (698, "OLSR, Optimized Link State Routing.")
    ∷ (699, "Access Network.")
    ∷ (700, "EPP, Extensible Provisioning Protocol.")
    ∷ (701, "LMP, Link Management Protocol.")
    ∷ (702, "IRIS over  BEEP.")
    ∷ (704, "errlog copy/server daemon.")
    ∷ (705, "AgentX.")
    ∷ (706, "SILC, Secure Internet Live Conferencing.")
    ∷ (707, "Borland DSJ.")
    ∷ (709, "Entrust Key Management Service Handler.")
    ∷ (710, "Entrust Administration Service Handler.")
    ∷ (711, "TDP, Tag Distribution Protocol.")
    ∷ (712, "TBRPF, Topology Broadcast based on Reverse-Path Forwarding.")
    ∷ (713, "IRIS over XPC.")
    ∷ (714, "IRIS over XPCS (RFC 4992).")
    ∷ (715, "IRIS-LWZ (RFC 4993).")
    ∷ (716, "PANA, Protocol for Carrying Authentication for Network Access.")
    ∷ (720, "DVMP, Distance Vectored Monitoring Protocol. SMQP, Simple Message Queue Protocol.")
    ∷ (721, "XSRP, eXtensible Service Registration Protocol.")
    ∷ (723, "XSTP, eXtensible Service Transfer Protocol.")
    ∷ (725, "XSSP, eXtensible Service Subscription Protocol.")
    ∷ (727, "XSLP, eXtensible Service Location Protocol.")
    ∷ (729, "IBM NetView DM/6000 Server/Client.")
    ∷ (730, "IBM NetView DM/6000 send TCP.")
    ∷ (731, "IBM NetView DM/6000 receive TCP.")
    ∷ (741, "netGW.")
    ∷ (742, "Network based Rev. Cont. Sys.")
    ∷ (744, "Flexible License Manager.")
    ∷ (747, "Fujitsu Device Control.")
    ∷ (748, "Russell Info Sci Calendar Manager.")
    ∷ (749, "kerberos administration.")
    ∷ (750, "kerberos version iv.")
    ∷ (751, "pump.")
    ∷ (752, "qrh.")
    ∷ (753, "rrh.")
    ∷ (754, "send")
    ∷ (758, "nlogin.")
    ∷ (759, "con.")
    ∷ (760, "ns.")
    ∷ (761, "rxe.")
    ∷ (762, "quotad.")
    ∷ (763, "cycleserv.")
    ∷ (764, "omserv.")
    ∷ (765, "webster.")
    ∷ (767, "phone.")
    ∷ (769, "vid.")
    ∷ (770, "cadlock.")
    ∷ (771, "rtip.")
    ∷ (772, "cycleserv2.")
    ∷ (773, "submit.")
    ∷ (774, "rpasswd. acmaint_dbd.")
    ∷ (775, "entomb. acmaint_transd.")
    ∷ (776, "wpages.")
    ∷ (777, "Multiling HTTP.")
    ∷ (780, "wpgs.")
    ∷ (800, "mdbs_daemon.")
    ∷ (801, "device.")
    ∷ (810, "FCP.")
    ∷ (828, "itm-mcell-s.")
    ∷ (829, "CMP, Certificate Management Protocols.")
    ∷ (830, "NETCONF over SSH.")
    ∷ (831, "NETCONF over BEEP.")
    ∷ (832, "NETCONF for  SOAP over HTTP.")
    ∷ (833, "NETCONF for  SOAP over BEEP.")
    ∷ (847, "dhcp-failover 2.")
    ∷ (848, "GDOI, Group Domain of Interpretation.")
    ∷ (860, "iSCSI.")
    ∷ (861, "OWAMP, One-way Active Measurement Protocol.")
    ∷ (862, "TWAMP, Two-Way Active Measurement Protocol.")
    ∷ (873, "rsync.")
    ∷ (886, "ICL coNETion locate server.")
    ∷ (887, "ICL coNETion server info.")
    ∷ (888, "AccessBuilder. CD Database Protocol.")
    ∷ (900, "OMG Initial Refs.")
    ∷ (901, "SMPNAMERES.")
    ∷ (902, "IDEAFARM-CHAT.")
    ∷ (903, "IDEAFARM-CATCH.")
    ∷ (910, "KINK, Kerberized Internet Negotiation of Keys.")
    ∷ (911, "xact-backup.")
    ∷ (912, "APEX relay-relay service.")
    ∷ (913, "APEX endpoint-relay service.")
    ∷ (989, "FTP data over TLS/SSL.")
    ∷ (990, "FTP control over TLS/SSL.")
    ∷ (991, "NAS, Netnews Administration System.")
    ∷ (992, "telnet over TLS/SSL.")
    ∷ (993, "imap4 over TLS/SSL.")
    ∷ (994, "irc over TLS/SSL.")
    ∷ (995, "pop3 over TLS/SSL (was spop3).")
    ∷ (996, "vsinet.")
    ∷ (997, "maitrd.")
    ∷ (998, "busboy. puparp.")
    ∷ (999, "Applix ac. garcon. puprouter.")
    ∷ (1000, "cadlock2.")
    ∷ (1008, "Sun Solaris?")
    ∷ (1010, "surf.")
    ∷ (1021, "RFC 3692-style Experiment 1.")
    ∷ (1022, "RFC 3692-style Experiment 2.")
    ∷ (1023, "reserved.")
    ∷ []
